-- ===== src/Tests.antt =====
-- The theorems at concrete inputs, and runs of the definitions.
mod Names
mod Scripts
mod Tables
mod Hubs
mod Activities
mod Origins
mod Pools
mod Sockets
mod Subscribers
mod Caches
mod Requests
mod Endpoints

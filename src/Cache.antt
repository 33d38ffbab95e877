-- ===== src/Cache.antt =====
-- src/stream.js: the cache of responses. SCAN finds every key that stays in the server while it runs
-- and matches its pattern. An entry may expire at any time.
pub mod Rooms
pub mod Hits
use yhub.Base.{
  ℕ, ◌*◌, Bool, true, false, not, ◌&&◌, ◌||◌, ◌==◌, ◌≡◌, Option, none, some, List, [], ◌∷◌, ◌++◌,
  Text, codes, text_eq, if◌then◌else◌, ltb, length, keep, ◌>>=◌,
}
use yhub.Message.{Bytes}
use yhub.Room.{Room}
use yhub.Uri.{uri_encode}
use yhub.Naming.{cache_prefix}

-- The keys of the cache, each with its response.
abbrev pub Responses : Type 0
Responses = List (Text × Bytes)

unfoldable pub get : Text → Responses → Option Bytes
get key [] = none
get key ((k, response) ∷ cache) =
    let rest = get key cache in if text_eq k key then some response else rest

unfoldable pub del : Text → Responses → Responses
del key cache = keep (λ e. not (text_eq e.0 key)) cache

unfoldable pub set : Text → Bytes → Responses → Responses
unfolding del
set key response cache = (key, response) ∷ del key cache

-- `args.map(uriEncode).join(':')`
unfoldable pub encode_args : List Text → Option Text
encode_args [] = some []
encode_args (a ∷ []) = uri_encode a
encode_args (a ∷ b ∷ args) =
    uri_encode a >>= λ t. encode_args (b ∷ args) >>= λ rest. some (t ++ b':' ∷ rest)

unfoldable pub cache_key : Room → Text → Text → List Text → Option Text
unfolding cache_prefix encode_args
cache_key room prefix endpoint args = cache_prefix room prefix >>= λ p.
    uri_encode endpoint >>= λ e. encode_args args >>= λ as'. some (p ++ (e ++ b':' ∷ as'))

abbrev pub backslash : ℕ
backslash = 92

abbrev pub max_size : ℕ
max_size = 100 * 1000 * 1000

-- Responses of less than 100 MB are stored.
abbrev pub cached_after : Text → Bytes → Responses → Responses
cached_after key result cache = if ltb (length result) max_size then set key result cache else cache

-- `cachedGet` under a key; `computed` is what `computeResult` gives, none where it is rejected.
unfoldable pub get_or_compute : Text → Option Bytes → Responses → Option Bytes × Responses
unfolding get set
get_or_compute key computed cache = elim (get key cache) [
  | some cached ↦ (some cached, cache)
  | none ↦ elim computed [
    | none ↦ (none, cache)
    | some result ↦ (some result, cached_after key result cache)
  ]
]

-- `cachedGet`
unfoldable pub cached_get :
    Room → Text → Text → List Text → Option Bytes → Responses → Option Bytes × Responses
unfolding cache_key get_or_compute
cached_get room prefix endpoint args computed cache = elim (cache_key room prefix endpoint args) [
  | none ↦ (none, cache)
  | some key ↦ get_or_compute key computed cache
]

-- A character that stands for itself in a pattern of redis; a dash is only special in brackets.
abbrev pub is_literal : ℕ → Bool
is_literal c = not (c == b'*' || c == b'?' || c == b'[' || c == b']' || c == b'^' || c == backslash)

-- The patterns of redis, by which SCAN finds keys, as far as they are documented and used.
pub record Globs : Type 0 where
  pub matches : Text → Text → Bool
  pub matches_literal :
      (c d : ℕ) (pattern' key : Text)
      → is_literal c ≡ true
      → matches (c ∷ pattern') (d ∷ key) ≡ (c == d && matches pattern' key)
  pub matches_literal_end :
      (c : ℕ) (pattern' : Text) → is_literal c ≡ true → matches (c ∷ pattern') [] ≡ false
  pub matches_star : (key : Text) → matches (b'*' ∷ []) key ≡ true

module _ (globs : Globs) where
  -- `deleteCachedResponses`: none where the room cannot be encoded. The prefix of redis is in the
  -- pattern as it is.
  unfoldable pub delete_cached_responses : Room → Text → Responses → Option Responses
  unfolding cache_prefix
  delete_cached_responses room prefix cache = cache_prefix room prefix >>= λ p.
      some (keep (λ e. not (globs.matches (p ++ b'*' ∷ []) e.0)) cache)

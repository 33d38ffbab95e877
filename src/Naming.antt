-- ===== src/Naming.antt =====
-- The redis keys of src/stream.js: room streams, quarantined streams and cached responses, and the
-- regular expressions that read them back. `.` is any character but a line terminator, a group
-- that is greedy is tried from its longest match down, and a throw is `none`.
pub mod Greedy
pub mod Streams
pub mod Live
use yhub.Base.{
  ℕ, zero, suc, Bool, true, false, ◌&&◌, ◌||◌, not, Option, none, some, List, [], ◌∷◌, ◌++◌, Text,
  codes, ◌==◌, if◌then◌else◌, ◌>>=◌, text_eq, strip_prefix, every, map,
}
use yhub.Uri.{uri_encode, uri_decode}
use yhub.Room.{Room}

-- What `.` matches in a regular expression.
unfoldable pub is_dot : ℕ → Bool
is_dot c = not (c == 10 || c == 13 || c == 0x2028 || c == 0x2029)

-- What `[^:]` matches.
unfoldable pub not_colon : ℕ → Bool
not_colon c = not (c == b':')

unfoldable pub first_some {ℓ} : {B : Type ℓ} → Option B → Option B → Option B
first_some none other = other
first_some (some b) other = some b

-- A group `(…*)` of one class of characters, followed by the rest of the expression, which is
-- handed what the group has taken: the longest match is tried first.
unfoldable pub greedy {ℓ} :
    {B : Type ℓ} → (ℕ → Bool) → (Text → Text → Option B) → Text → Text → Option B
unfolding first_some
greedy cls rest taken [] = rest taken []
greedy cls rest taken (c ∷ cs) =
    let longer = greedy cls rest (taken ++ c ∷ []) cs in
    if cls c then first_some longer (rest taken (c ∷ cs)) else rest taken (c ∷ cs)

-- A group `(…+)`: as above, and not empty.
unfoldable pub nonempty {ℓ} : {B : Type ℓ} → (Text → Text → Option B) → Text → Text → Option B
nonempty rest [] cs = none
nonempty rest (c ∷ taken) cs = rest (c ∷ taken) cs

abbrev pub Groups : Type 0
Groups = Text × Text × Text × Text

-- The end of `/^(.*):room:(.*):(.*):(.*?)$/`, behind the third group.
unfoldable pub room_branch : Text → Text → Text → Text → Option Groups
room_branch prefix org taken s = strip_prefix (b':' ∷ []) s >>= λ branch.
    if every is_dot branch then some (prefix, org, taken, branch) else none

unfoldable pub room_docid : Text → Text → Text → Option Groups
room_docid prefix taken s =
    strip_prefix (b':' ∷ []) s >>= λ r. greedy is_dot (room_branch prefix taken) [] r

unfoldable pub room_org : Text → Text → Option Groups
room_org taken s = strip_prefix (codes ":room:") s >>= λ r. greedy is_dot (room_docid taken) [] r

-- `rediskey.match(/^(.*):room:(.*):(.*):(.*?)$/)`
unfoldable pub match_room : Text → Option Groups
match_room key = greedy is_dot room_org [] key

-- The three components of a key, encoded and joined by `:`.
unfoldable pub encode_components : Room → Option Text
encode_components room = uri_encode room.org >>= λ o. uri_encode room.docid >>= λ d.
    uri_encode room.branch >>= λ b. some (o ++ b':' ∷ (d ++ b':' ∷ b))

unfoldable pub encode_room_name : Room → Text → Option Text
unfolding encode_components
encode_room_name room prefix =
    encode_components room >>= λ cs. some (prefix ++ codes ":room:" ++ cs)

unfoldable pub decode_components : Text → Text → Text → Option Room
decode_components org docid branch = uri_decode org >>= λ o. uri_decode docid >>= λ d.
    uri_decode branch >>= λ b. some (record { org = o; docid = d; branch = b })

unfoldable pub decode_groups : Text → Groups → Option Room
decode_groups expected (prefix, org, docid, branch) =
    if text_eq prefix expected then decode_components org docid branch else none

unfoldable pub decode_room_name : Text → Text → Option Room
decode_room_name key expected = match_room key >>= λ groups. decode_groups expected groups

unfoldable pub encode_quarantine_name : Room → Text → Text → Option Text
unfolding encode_components
encode_quarantine_name room prefix qid =
    encode_components room >>= λ cs. some (prefix ++ codes ":quarantine_room:" ++ cs ++ b':' ∷ qid)

-- `_cachePrefix`
unfoldable pub cache_prefix : Room → Text → Option Text
unfolding encode_components
cache_prefix room prefix =
    encode_components room >>= λ cs. some (prefix ++ codes ":cache:" ++ cs ++ b':' ∷ [])

-- `^.*:quarantine_room:([^:]+):([^:]+):([^:]+):([^:]+)$`, with the texts of its groups.
unfoldable pub quarantine_qid :
    Text → Text → Text → Text → Text → Option (Text × Text × Text × Text)
quarantine_qid org docid branch taken s =
    if text_eq s [] then some (org, docid, branch, taken) else none

-- A group without colons, behind a colon.
unfoldable pub colon_group {ℓ} : {B : Type ℓ} → (Text → Text → Option B) → Text → Option B
unfolding not_colon greedy nonempty strip_prefix
colon_group rest s = do r ← strip_prefix (b':' ∷ []) s; greedy not_colon (nonempty rest) [] r

unfoldable pub match_quarantine : Text → Option (Text × Text × Text × Text)
unfolding quarantine_qid colon_group is_dot greedy strip_prefix
match_quarantine key =
    greedy is_dot
      (λ taken s. do
        r ← strip_prefix (codes ":quarantine_room") s
        colon_group
            (λ org s1.
              colon_group
                (λ docid s2.
                  colon_group (λ branch s3. colon_group (quarantine_qid org docid branch) s3) s2)
                s1)
            r)
      [] key

-- An entry of `getAllQuarantineStreams`: a room and the id of its quarantined stream.
unfoldable pub decode_quarantine_name : Text → Option (Room × Text)
unfolding match_quarantine decode_components
decode_quarantine_name key = do
  (org, docid, branch, qid) ← match_quarantine key
  room ← decode_components org docid branch
  some (room, qid)

-- ===== src/Api/Failing.antt =====
-- src/api.js: exceptions whose responses can be encoded.
use yhub.Base.{
  ℕ, Bool, true, false, Option, none, some, is_some, List, [], ◌∷◌, Text, codes, ◌≡◌, refl, arith,
  Option-cases, inl, inr, map,
}
use yhub.Message.{Bytes}
use yhub.Server.{AccessType}
use yhub.Api.{
  Properties, Thrown, api_error, doc_deleted, other_error, Attempt, returned, thrown, Plugin,
  deny_thrown, read_access, read_user, authenticate, Encodings, encode, error_body,
  send_error_response, error_of, typed_content, transcoded, negotiated, render, Result, response,
  nothing, string, raw, encoded, value,
}

module _ {V : Type 0} (encodings : Encodings V) where
  -- A value that both encoders take.
  abbrev pub Encodes : V → Type 0
  Encodes v = (json : Bool) → is_some (encode encodings json v) ≡ true

  -- The encoders take objects of texts.
  abbrev pub EncodesTexts : Type 0
  EncodesTexts =
      (fields : List (Text × Text))
      → Encodes (encodings.object (map (λ f. (f.0, encodings.text f.1)) fields))

  -- The encoders take the body that an exception of `apiError` asks for.
  abbrev pub HasBody : Thrown V → Type 0
  HasBody (api_error status message extra) = Encodes (error_body encodings message extra)
  HasBody _ = Unit {0}

  pub send_error_response-sends :
      (status : ℕ) (message : Text) (extra : Properties V) (json : Bool)
      → Encodes (error_body encodings message extra)
      → is_some (send_error_response encodings status message extra json) ≡ true
  unfolding send_error_response
  send_error_response-sends status message extra json h =
      elim (Option-cases (encode encodings json (error_body encodings message extra))) [
        | inl n ↦ ground (arith, h json, n)
        | inr (body, n) ↦ simp (send_error_response, n) refl
      ]

  pub error_of-sends :
      (json : Bool) (err : Thrown V)
      → EncodesTexts
      → HasBody err
      → is_some (error_of encodings json err) ≡ true
  unfolding error_of
  error_of-sends json (api_error status message extra) t h =
      send_error_response-sends status message extra json h
  error_of-sends json doc_deleted t h =
      send_error_response-sends 404 _ _ json
        (t ((codes "error", codes "Not Found") ∷ (codes "code", codes "doc-deleted") ∷ []))
  error_of-sends json other_error t h =
      send_error_response-sends 500 _ _ json
        (t ((codes "error", codes "Internal server error") ∷ []))

-- What is thrown has a body that the encoders take.
abbrev pub FailsWell : {V A : Type 0} → Encodings V → Attempt V A → Type 0
FailsWell encodings (returned x) = Unit {0}
FailsWell encodings (thrown err) = HasBody encodings err

-- The auth plugin throws no exception of `apiError` whose body cannot be encoded.
abbrev pub PluginFailsWell : {V : Type 0} → Encodings V → Option (Plugin V) → Type 0
PluginFailsWell encodings none = Unit {0}
PluginFailsWell encodings (some plugin) =
    FailsWell encodings plugin.read_auth_info
    × ((userid : Text) → FailsWell encodings (plugin.get_access userid))

module _ {V : Type 0} (encodings : Encodings V) where
  deny_thrown-FailsWell :
      (err : Thrown V) → HasBody encodings err → FailsWell encodings (deny_thrown err)
  unfolding deny_thrown
  deny_thrown-FailsWell (api_error status message extra) h = h
  deny_thrown-FailsWell doc_deleted h = tt
  deny_thrown-FailsWell other_error h = tt

  read_access-FailsWell :
      (required : AccessType) (userid : Text) (access : Attempt V (Option AccessType))
      → FailsWell encodings access
      → FailsWell encodings (read_access required userid access)
  unfolding read_access
  read_access-FailsWell required userid (returned access) h = tt
  read_access-FailsWell required userid (thrown err) h = deny_thrown-FailsWell err h

  read_user-FailsWell :
      (plugin : Plugin V) (required : AccessType) (user : Attempt V (Option Text))
      → ((userid : Text) → FailsWell encodings (plugin.get_access userid))
      → FailsWell encodings user
      → FailsWell encodings (read_user plugin required user)
  unfolding read_user
  read_user-FailsWell plugin required (returned none) a h = tt
  read_user-FailsWell plugin required (returned (some userid)) a h =
      read_access-FailsWell required userid (plugin.get_access userid) (a userid)
  read_user-FailsWell plugin required (thrown err) a h = deny_thrown-FailsWell err h

  pub authenticate-FailsWell :
      (plugin : Option (Plugin V)) (required : AccessType)
      → PluginFailsWell encodings plugin
      → FailsWell encodings (authenticate plugin required)
  unfolding authenticate
  authenticate-FailsWell none required h = tt
  authenticate-FailsWell (some plugin) required (u, a) =
      read_user-FailsWell plugin required plugin.read_auth_info a u

  typed_content-FailsWell :
      (content_type : Text) (body : Option Bytes)
      → FailsWell encodings (typed_content encodings content_type body)
  typed_content-FailsWell content_type none = tt
  typed_content-FailsWell content_type (some body) = tt

  negotiated-FailsWell :
      (json : Bool) (a b : Option Bytes) → FailsWell encodings (negotiated encodings json a b)
  negotiated-FailsWell true a b = typed_content-FailsWell _ a
  negotiated-FailsWell false a b = typed_content-FailsWell _ b

  pub render-FailsWell :
      (json : Bool) (result : Result V) → FailsWell encodings (render encodings json result)
  unfolding render
  render-FailsWell json (response status none) = tt
  render-FailsWell json (response status (some body)) = tt
  render-FailsWell json nothing = tt
  render-FailsWell json (string t) = tt
  render-FailsWell json (raw bytes) = tt
  render-FailsWell json (encoded bytes) =
      negotiated-FailsWell json (transcoded encodings bytes) (some bytes)
  render-FailsWell json (value v) =
      negotiated-FailsWell json (encodings.stringify v) (encodings.encode_any v)

-- ===== src/Api.antt =====
-- src/api.js: a request of an endpoint. What is sent is a reply, or none where the client has gone
-- before. `Q` is the type of queries, `B` that of bodies, `V` that of the values of lib0; the schemas,
-- the handler and the auth plugin are parameters. Logging is left out.
pub mod Access
pub mod Failing
pub mod Replies
pub mod Registering
pub mod Routes
use yhub.Base.{
  ℕ, Bool, true, false, not, ◌&&◌, ◌||◌, Option, none, some, List, [], ◌∷◌, Text, codes,
  if◌then◌else◌,
}
use yhub.Message.{Bytes}
use yhub.Cors.{ResolvedCors, origin_allowed}
use yhub.Server.{AccessType, r, rw, has_read_access, has_write_access}

-- The own fields of an object; of two with one name the later one stands.
abbrev pub Properties : Type 0 → Type 0
Properties V = List (Text × V)

-- An exception: one of `apiError` with its `extra`, which may be empty, a `DocDeletedError`, or
-- another.
pub data Thrown (V : Type 0) : Type 0 where
  api_error : (status : ℕ) (message : Text) (extra : Properties V) → Thrown V
  doc_deleted : Thrown V
  other_error : Thrown V

pub data Attempt (V A : Type 0) : Type 0 where
  returned : A → Attempt V A
  thrown : Thrown V → Attempt V A

-- The return of `authenticate`.
pub data Authenticated : Type 0 where
  denied : (status : ℕ) (error : Text) → Authenticated
  granted : (userid : Text) (access : Option AccessType) → Authenticated

-- What the auth plugin says: who it is, if anyone, and then what they may do.
pub record Plugin (V : Type 0) : Type 0 where
  pub read_auth_info : Attempt V (Option Text)
  pub get_access : Text → Attempt V (Option AccessType)

unfoldable pub suffices : AccessType → Option AccessType → Bool
unfolding has_read_access has_write_access
suffices rw access = has_write_access access
suffices r access = has_read_access access

unfoldable pub check_access : AccessType → Text → Option AccessType → Authenticated
unfolding suffices
check_access required userid access =
    if suffices required access then granted userid access else denied 403 (codes "Forbidden")

-- An error of the plugin denies, unless it is one of `apiError`.
unfoldable pub deny_thrown : {V : Type 0} → Thrown V → Attempt V Authenticated
deny_thrown (api_error status message extra) = thrown (api_error status message extra)
deny_thrown doc_deleted = returned (denied 401 (codes "Unauthorized"))
deny_thrown other_error = returned (denied 401 (codes "Unauthorized"))

unfoldable pub read_access :
    {V : Type 0} → AccessType → Text → Attempt V (Option AccessType) → Attempt V Authenticated
unfolding check_access deny_thrown
read_access required userid (returned access) = returned (check_access required userid access)
read_access required userid (thrown err) = deny_thrown err

unfoldable pub read_user :
    {V : Type 0} → Plugin V → AccessType → Attempt V (Option Text) → Attempt V Authenticated
unfolding read_access
read_user plugin required (returned none) = returned (denied 401 (codes "Unauthorized"))
read_user plugin required (returned (some userid)) =
    read_access required userid (plugin.get_access userid)
read_user plugin required (thrown err) = deny_thrown err

-- `authenticate`; the plugin may not be configured.
unfoldable pub authenticate :
    {V : Type 0} → Option (Plugin V) → AccessType → Attempt V Authenticated
unfolding read_user
authenticate none required = returned (denied 401 (codes "Unauthorized"))
authenticate (some plugin) required = read_user plugin required plugin.read_auth_info

-- What a handler returns.
pub data Result (V : Type 0) : Type 0 where
  -- Its body is none where `arrayBuffer` is rejected.
  response : (status : ℕ) (body : Option Bytes) → Result V
  nothing : Result V
  string : Text → Result V
  raw : Bytes → Result V
  encoded : Bytes → Result V
  value : V → Result V

pub data Reply : Type 0 where
  error_reply : (status : ℕ) (json : Bool) (body : Bytes) → Reply
  own_response : (status : ℕ) (body : Bytes) → Reply
  no_content : Reply
  content : (content_type : Text) (body : Bytes) → Reply

-- The waits of a request, behind each of which the client may have gone.
pub data Stage : Type 0 where
  authenticating : Stage
  handling : Stage
  buffering : Stage
  uploading : Stage

pub record Request (Q : Type 0) : Type 0 where
  pub origin : Text
  pub host : Text
  pub sec_fetch_site : Text
  pub accepts_json : Bool
  pub is_json : Bool
  pub query : Q
  -- None where the upload is aborted.
  pub body : Option Bytes
  pub aborted : Stage → Bool

-- The values of lib0, with its encodings and `JSON.stringify` with the replacer, which is left out; none
-- where they throw.
pub record Encodings (V : Type 0) : Type 0 where
  pub text : Text → V
  pub object : Properties V → V
  pub encode_any : V → Option Bytes
  pub decode_any : Bytes → Option V
  pub stringify : V → Option Bytes

module _ {V : Type 0} (encodings : Encodings V) where
  open encodings use {text, object, encode_any, decode_any, stringify}

  abbrev pub encode : Bool → V → Option Bytes
  encode true v = stringify v
  encode false v = encode_any v

  abbrev pub error_body : Text → Properties V → V
  error_body message extra = object ((codes "error", text message) ∷ extra)

  -- `sendErrorResponse`: none where it throws, which is before anything is sent.
  unfoldable pub send_error_response : ℕ → Text → Properties V → Bool → Option Reply
  send_error_response status message extra json = elim (encode json (error_body message extra)) [
    | none ↦ none
    | some body ↦ some (error_reply status json body)
  ]

  -- The response of the catch for an exception.
  unfoldable pub error_of : Bool → Thrown V → Option Reply
  unfolding send_error_response
  error_of json (api_error status message extra) = send_error_response status message extra json
  error_of json doc_deleted =
      send_error_response 404 (codes "Not Found") ((codes "code", text (codes "doc-deleted")) ∷ [])
        json
  error_of json other_error = send_error_response 500 (codes "Internal server error") [] json

  abbrev pub transcoded : Bytes → Option Bytes
  transcoded bytes = elim (decode_any bytes) [ none ↦ none | some v ↦ stringify v ]

  -- A body of this type, or an exception.
  abbrev pub typed_content : Text → Option Bytes → Attempt V Reply
  typed_content content_type none = thrown other_error
  typed_content content_type (some body) = returned (content content_type body)

  abbrev pub negotiated : Bool → Option Bytes → Option Bytes → Attempt V Reply
  negotiated true json any = typed_content (codes "application/json") json
  negotiated false json any = typed_content (codes "application/x-lib0any") any

  unfoldable pub render : Bool → Result V → Attempt V Reply
  render json (response status none) = thrown other_error
  render json (response status (some body)) = returned (own_response status body)
  render json nothing = returned no_content
  render json (string t) = returned (content (codes "text/plain; charset=utf-8") t)
  render json (raw bytes) = returned (content (codes "application/octet-stream") bytes)
  render json (encoded bytes) = negotiated json (transcoded bytes) (some bytes)
  render json (value v) = negotiated json (stringify v) (encode_any v)

module _ (Q B V : Type 0) where
  pub record ApiRequest : Type 0 where
    pub userid : Text
    pub access_type : Option AccessType
    pub query : Q
    pub body : Option B

  -- The options of `createApiHandler`. The query and the body are coerced or refused with a message.
  pub record Endpoint : Type 0 where
    pub required_access : AccessType
    pub cors : Option ResolvedCors
    pub coerce_query : Option (Q → Attempt V Q)
    -- The branch that is the default goes into the query, where it declares one.
    pub with_branch : Q → Q
    pub read_body : Option (Bool → Bytes → Attempt V B)
    pub handler : ApiRequest → Attempt V (Result V)
    pub encodings : Encodings V

module _ {Q B V : Type 0} (e : Endpoint Q B V) (plugin : Option (Plugin V)) where
  abbrev pub checked_query : Option (Q → Attempt V Q) → Q → Attempt V Q
  checked_query none query = returned query
  checked_query (some coerce) query = coerce (e.with_branch query)

  abbrev pub checked_body :
      Option (Bool → Bytes → Attempt V B) → Bool → Option Bytes → Attempt V (Option B)
  checked_body none is_json body = returned none
  checked_body (some read) is_json none = thrown other_error
  checked_body (some read) is_json (some bytes) = elim (read is_json bytes) [
    | returned body ↦ returned (some body)
    | thrown err ↦ thrown err
  ]

  -- What `handleRequest` gives the handler, where it gets so far.
  unfoldable pub prepare : Request Q → Text → Option AccessType → Attempt V (ApiRequest Q B V)
  prepare req userid access = elim (checked_query e.coerce_query req.query) [
    | thrown err ↦ thrown err
    | returned query ↦ elim (checked_body e.read_body req.is_json req.body) [
      | thrown err ↦ thrown err
      | returned body ↦
          returned (record { userid = userid; access_type = access; query = query; body = body })
    ]
  ]

  abbrev pub waits_more : Result V → Bool
  waits_more (response status body) = true
  waits_more _ = false

  -- The catch of `handleRequest`, which waits for the upload. Where it throws, nothing is sent.
  unfoldable pub fail : Request Q → Thrown V → Option Reply
  unfolding error_of
  fail req err = if req.aborted uploading then none else error_of e.encodings req.accepts_json err

  -- What a handler has returned, behind the first test of whether the client has gone.
  unfoldable pub reply_with : Request Q → Bool → Attempt V Reply → Option Reply
  unfolding fail
  reply_with req waits (thrown err) = fail req err
  reply_with req waits (returned reply) =
      if waits && req.aborted buffering then none else some reply

  unfoldable pub finish : Request Q → Attempt V (Result V) → Option Reply
  unfolding fail reply_with render
  finish req (thrown err) = fail req err
  finish req (returned result) =
      if req.aborted handling
      then none
      else reply_with req (waits_more result) (render e.encodings req.accepts_json result)

  -- What the handler was called with, if it was, and what is sent.
  abbrev pub Outcome : Type 0
  Outcome = Option (ApiRequest Q B V) × Option Reply

  unfoldable pub call : Request Q → Attempt V (ApiRequest Q B V) → Outcome
  unfolding fail finish
  call req (thrown err) = (none, fail req err)
  call req (returned api_req) = (some api_req, finish req (e.handler api_req))

  unfoldable pub handle_request : Request Q → Attempt V Authenticated → Outcome
  unfolding call prepare
  handle_request req (thrown err) = (none, fail req err)
  handle_request req (returned (denied status error)) =
      if req.aborted authenticating
      then (none, none)
      else (none, fail req (api_error status error []))
  handle_request req (returned (granted userid access)) =
      if req.aborted authenticating then (none, none) else call req (prepare req userid access)

  -- The response to an origin that is not allowed is in JSON; the outer catch answers in its place
  -- where it throws.
  unfoldable pub refuse_origin : Request Q → Option Reply
  unfolding send_error_response
  refuse_origin req =
      elim (send_error_response e.encodings 403 (codes "origin not allowed")
        ((codes "code", e.encodings.text (codes "origin-not-allowed")) ∷ []) true) [
          | some reply ↦ some reply
          | none ↦
              send_error_response e.encodings 500 (codes "Internal server error") []
                req.accepts_json
        ]

  -- `createApiHandler`
  unfoldable pub handle : Request Q → Outcome
  unfolding handle_request authenticate refuse_origin
  handle req =
      if not (origin_allowed e.cors req.origin req.host req.sec_fetch_site)
      then (none, refuse_origin req)
      else handle_request req (authenticate plugin e.required_access)

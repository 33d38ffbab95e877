-- ===== src/Api/Access.antt =====
-- src/api.js: which requests reach a handler.
use yhub.Base.{
  Bool, true, false, Option, none, some, Text, if◌then◌else◌, ◌≡◌, refl, Bool-cases, inl, inr,
}
use yhub.Cors.{origin_allowed}
use yhub.Server.{AccessType}
use yhub.Api.{
  Thrown, api_error, doc_deleted, other_error, Attempt, returned, thrown, Authenticated, denied,
  granted, Plugin, suffices, check_access, deny_thrown, read_access, read_user, authenticate, Reply,
  Request, authenticating, ApiRequest, Endpoint, checked_query, checked_body, prepare, call,
  handle_request, handle,
}

-- The plugin has read who it is, and has said what they may do.
abbrev pub HasRead : {V : Type 0} → Option (Plugin V) → Text → Option AccessType → Type 0
HasRead none userid access = ⊥
HasRead (some plugin) userid access =
    (plugin.read_auth_info ≡ returned (some userid)) × (plugin.get_access userid ≡ returned access)

abbrev pub GrantedIf :
    {V : Type 0} → Option (Plugin V) → AccessType → Attempt V Authenticated → Type 0
GrantedIf plugin required (returned (granted userid access)) =
    HasRead plugin userid access × (suffices required access ≡ true)
GrantedIf plugin required _ = Unit {0}

deny_thrown-GrantedIf :
    {V : Type 0} (plugin : Option (Plugin V)) (required : AccessType) (err : Thrown V)
    → GrantedIf plugin required (deny_thrown err)
unfolding deny_thrown
deny_thrown-GrantedIf plugin required (api_error status message extra) = tt
deny_thrown-GrantedIf plugin required doc_deleted = tt
deny_thrown-GrantedIf plugin required other_error = tt

read_access-GrantedIf :
    {V : Type 0} (plugin : Plugin V) (required : AccessType) (userid : Text)
    (answer : Attempt V (Option AccessType))
    → plugin.read_auth_info ≡ returned (some userid)
    → plugin.get_access userid ≡ answer
    → GrantedIf (some plugin) required (read_access required userid answer)
unfolding read_access check_access
read_access-GrantedIf plugin required userid (thrown err) h k =
    deny_thrown-GrantedIf (some plugin) required err
read_access-GrantedIf plugin required userid (returned access) h k =
    elim (Bool-cases (suffices required access)) [
      | inl e ↦ simp (e) ((h, k), refl)
      | inr e ↦ simp (e) tt
    ]

read_user-GrantedIf :
    {V : Type 0} (plugin : Plugin V) (required : AccessType) (user : Attempt V (Option Text))
    → plugin.read_auth_info ≡ user
    → GrantedIf (some plugin) required (read_user plugin required user)
unfolding read_user
read_user-GrantedIf plugin required (thrown err) h =
    deny_thrown-GrantedIf (some plugin) required err
read_user-GrantedIf plugin required (returned none) h = tt
read_user-GrantedIf plugin required (returned (some userid)) h =
    read_access-GrantedIf plugin required userid (plugin.get_access userid) h refl

authenticate-GrantedIf :
    {V : Type 0} (plugin : Option (Plugin V)) (required : AccessType)
    → GrantedIf plugin required (authenticate plugin required)
unfolding authenticate
authenticate-GrantedIf none required = tt
authenticate-GrantedIf (some plugin) required =
    read_user-GrantedIf plugin required plugin.read_auth_info refl

module _ {Q B V : Type 0} (e : Endpoint Q B V) (plugin : Option (Plugin V)) where
  -- What the handler may rely on of a request that it is given.
  pub record IsChecked (req : Request Q) (api_req : ApiRequest Q B V) : Type 0 where
    pub origin : origin_allowed e.cors req.origin req.host req.sec_fetch_site ≡ true
    pub user : HasRead plugin api_req.userid api_req.access_type
    pub access : suffices e.required_access api_req.access_type ≡ true
    pub query : checked_query e plugin e.coerce_query req.query ≡ returned api_req.query
    pub body : checked_body e plugin e.read_body req.is_json req.body ≡ returned api_req.body

  abbrev pub CheckedIf : Request Q → Option (ApiRequest Q B V) → Type 0
  CheckedIf req none = Unit {0}
  CheckedIf req (some api_req) = IsChecked req api_req

  -- The body, behind a query that was taken.
  body-CheckedIf :
      (req : Request Q) (userid : Text) (access : Option AccessType) (query : Q)
      (body : Attempt V (Option B))
      → origin_allowed e.cors req.origin req.host req.sec_fetch_site ≡ true
      → HasRead plugin userid access
      → suffices e.required_access access ≡ true
      → checked_query e plugin e.coerce_query req.query ≡ returned query
      → checked_body e plugin e.read_body req.is_json req.body ≡ body
      → CheckedIf req
          (call e plugin req (elim body [
            | thrown err ↦ thrown err
            | returned b ↦
                returned (record { userid = userid; access_type = access; query = query; body = b })
          ])).0
  unfolding call
  body-CheckedIf req userid access query (thrown err) o u a q b = tt
  body-CheckedIf req userid access query (returned body) o u a q b = record {
    origin = o;
    user = u;
    access = a;
    query = q;
    body = b;
  }

  query-CheckedIf :
      (req : Request Q) (userid : Text) (access : Option AccessType) (query : Attempt V Q)
      → origin_allowed e.cors req.origin req.host req.sec_fetch_site ≡ true
      → HasRead plugin userid access
      → suffices e.required_access access ≡ true
      → checked_query e plugin e.coerce_query req.query ≡ query
      → CheckedIf req
          (call e plugin req (elim query [
            | thrown err ↦ thrown err
            | returned q ↦ elim (checked_body e plugin e.read_body req.is_json req.body) [
              | thrown err ↦ thrown err
              | returned b ↦
                  returned (record { userid = userid; access_type = access; query = q; body = b })
            ]
          ])).0
  unfolding call
  query-CheckedIf req userid access (thrown err) o u a q = tt
  query-CheckedIf req userid access (returned query) o u a q =
      body-CheckedIf req userid access query _ o u a q refl

  if-CheckedIf :
      (b : Bool) (req : Request Q) (u v : Option (ApiRequest Q B V) × Option Reply)
      → CheckedIf req u.0
      → CheckedIf req v.0
      → CheckedIf req (if b then u else v).0
  if-CheckedIf true req u v h k = h
  if-CheckedIf false req u v h k = k

  handle_request-CheckedIf :
      (req : Request Q) (auth : Attempt V Authenticated)
      → origin_allowed e.cors req.origin req.host req.sec_fetch_site ≡ true
      → GrantedIf plugin e.required_access auth
      → CheckedIf req (handle_request e plugin req auth).0
  unfolding handle_request prepare
  handle_request-CheckedIf req (thrown err) o g = tt
  handle_request-CheckedIf req (returned (denied status error)) o g =
      if-CheckedIf (req.aborted authenticating) req _ _ tt tt
  handle_request-CheckedIf req (returned (granted userid access)) o (u, a) =
      if-CheckedIf (req.aborted authenticating) req _ _ tt (
        query-CheckedIf req userid access (checked_query e plugin e.coerce_query req.query) o u a
          refl)

  -- A handler is only called with a request whose origin is allowed, of a user whom the auth plugin has
  -- read and granted the access that the method requires, and with a query and a body that its
  -- schemas have taken. No other request reaches it.
  pub handle-CheckedIf : (req : Request Q) → CheckedIf req (handle e plugin req).0
  unfolding handle
  handle-CheckedIf req =
      elim (Bool-cases (origin_allowed e.cors req.origin req.host req.sec_fetch_site)) [
        | inr o ↦ simp (o) tt
        | inl o ↦ simp (o) (
            handle_request-CheckedIf req (authenticate plugin e.required_access) o
              (authenticate-GrantedIf plugin e.required_access))
      ]

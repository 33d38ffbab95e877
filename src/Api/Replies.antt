-- ===== src/Api/Replies.antt =====
-- src/api.js: which requests are answered.
use yhub.Base.{
  Bool, true, false, Option, is_some, [], ◌∷◌, Text, codes, ◌≡◌, refl, arith, Bool-cases,
  Option-cases, inl, inr,
}
use yhub.Cors.{origin_allowed}
use yhub.Server.{AccessType}
use yhub.Api.{
  Thrown, api_error, Attempt, returned, thrown, Authenticated, denied, granted, Plugin,
  authenticate, send_error_response, render, Result, Reply, Stage, authenticating, handling,
  buffering, uploading, Request, ApiRequest, Endpoint, waits_more, checked_query, checked_body,
  prepare, fail, reply_with, finish, call, handle_request, refuse_origin, handle,
}
use yhub.Api.Failing.{
  EncodesTexts, HasBody, send_error_response-sends, error_of-sends, authenticate-FailsWell,
  render-FailsWell, FailsWell, PluginFailsWell,
}

module _ {Q B V : Type 0} (e : Endpoint Q B V) (plugin : Option (Plugin V)) where
  -- The client waits for the answer.
  abbrev pub Stays : Request Q → Type 0
  Stays req = (stage : Stage) → req.aborted stage ≡ false

  -- Neither the auth plugin nor the schemas nor the handler throw an exception of `apiError` with an
  -- `extra` that cannot be encoded.
  pub record EndpointFailsWell (req : Request Q) : Type 0 where
    pub texts : EncodesTexts e.encodings
    pub auth : PluginFailsWell e.encodings plugin
    pub query : FailsWell e.encodings (checked_query e plugin e.coerce_query req.query)
    pub body : FailsWell e.encodings (checked_body e plugin e.read_body req.is_json req.body)
    pub handler : (api_req : ApiRequest Q B V) → FailsWell e.encodings (e.handler api_req)

  module _ (req : Request Q) (s : Stays req) (w : EndpointFailsWell req) where
    fail-answers :
        (err : Thrown V) → HasBody e.encodings err → is_some (fail e plugin req err) ≡ true
    unfolding fail
    fail-answers err h =
        simp (s uploading) (error_of-sends e.encodings req.accepts_json err w.texts h)

    reply_with-answers :
        (waits : Bool) (reply : Attempt V Reply)
        → FailsWell e.encodings reply
        → is_some (reply_with e plugin req waits reply) ≡ true
    unfolding reply_with
    reply_with-answers waits (thrown err) h = fail-answers err h
    reply_with-answers true (returned reply) h = simp (s buffering) refl
    reply_with-answers false (returned reply) h = refl

    finish-answers :
        (result : Attempt V (Result V))
        → FailsWell e.encodings result
        → is_some (finish e plugin req result) ≡ true
    unfolding finish
    finish-answers (thrown err) h = fail-answers err h
    finish-answers (returned result) h = simp (s handling) (
        reply_with-answers (waits_more e plugin result) (render e.encodings req.accepts_json result)
          (render-FailsWell e.encodings req.accepts_json result))

    call-answers :
        (prepared : Attempt V (ApiRequest Q B V))
        → FailsWell e.encodings prepared
        → is_some (call e plugin req prepared).1 ≡ true
    unfolding call
    call-answers (thrown err) h = fail-answers err h
    call-answers (returned api_req) h = finish-answers (e.handler api_req) (w.handler api_req)

    body-FailsWell :
        (userid : Text) (access : Option AccessType) (query : Q) (body : Attempt V (Option B))
        → FailsWell e.encodings body
        → FailsWell {A = ApiRequest Q B V} e.encodings (elim body [
          | thrown err ↦ thrown err
          | returned b ↦
              returned (record { userid = userid; access_type = access; query = query; body = b })
        ])
    body-FailsWell userid access query (thrown err) h = h
    body-FailsWell userid access query (returned b) h = tt

    prepare-FailsWell :
        (userid : Text) (access : Option AccessType) (query : Attempt V Q)
        → FailsWell e.encodings query
        → FailsWell {A = ApiRequest Q B V} e.encodings (elim query [
          | thrown err ↦ thrown err
          | returned q ↦ elim (checked_body e plugin e.read_body req.is_json req.body) [
            | thrown err ↦ thrown err
            | returned b ↦
                returned (record { userid = userid; access_type = access; query = q; body = b })
          ]
        ])
    prepare-FailsWell userid access (thrown err) h = h
    prepare-FailsWell userid access (returned q) h = body-FailsWell userid access q _ w.body

    handle_request-answers :
        (auth : Attempt V Authenticated)
        → FailsWell e.encodings auth
        → is_some (handle_request e plugin req auth).1 ≡ true
    unfolding handle_request prepare
    handle_request-answers (thrown err) h = fail-answers err h
    handle_request-answers (returned (denied status error)) h =
        simp (s authenticating)
          (fail-answers (api_error status error []) (w.texts ((codes "error", error) ∷ [])))
    handle_request-answers (returned (granted userid access)) h = simp (s authenticating) (
        call-answers (prepare e plugin req userid access) (
          prepare-FailsWell userid access (checked_query e plugin e.coerce_query req.query)
            w.query))

    refuse_origin-answers : is_some (refuse_origin e plugin req) ≡ true
    unfolding refuse_origin
    refuse_origin-answers =
        let sent =
          send_error_response-sends e.encodings 403 (codes "origin not allowed")
            ((codes "code", e.encodings.text (codes "origin-not-allowed")) ∷ []) true
            (w.texts (
              (codes "error", codes "origin not allowed")
              ∷ (codes "code", codes "origin-not-allowed")
              ∷ [])) in
        elim (Option-cases (
          send_error_response e.encodings 403 (codes "origin not allowed")
            ((codes "code", e.encodings.text (codes "origin-not-allowed")) ∷ []) true)) [
              | inl n ↦ ground (arith, sent, n)
              | inr (reply, n) ↦ simp (refuse_origin, n) refl
            ]

  -- A request whose client stays is answered, whether its origin is refused, its user is denied, the
  -- auth plugin, the schemas or the handler throw, or the result cannot be read or encoded. Every
  -- encoder is taken to encode objects of texts, and the object that an exception of `apiError` asks for
  -- where the auth plugin, a schema or the handler throws one.
  pub handle-answers :
      (req : Request Q) → Stays req → EndpointFailsWell req → is_some (handle e plugin req).1 ≡ true
  unfolding handle
  handle-answers req s w =
      elim (Bool-cases (origin_allowed e.cors req.origin req.host req.sec_fetch_site)) [
        | inr o ↦ simp (o) (refuse_origin-answers req s w)
        | inl o ↦ simp (o) (
            handle_request-answers req s w (authenticate plugin e.required_access)
              (authenticate-FailsWell e.encodings plugin e.required_access w.auth))
      ]

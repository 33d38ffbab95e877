-- ===== src/Tests/Requests.antt =====
-- src/api.js: requests of an endpoint that writes.
use yhub.Base.{
  ℕ, true, false, Option, none, some, is_some, List, [], ◌∷◌, ◌++◌, Text, codes, text_eq, map, ◌≡◌,
  refl, arith, Option-cases, inl, inr,
}
use yhub.Message.{Bytes}
use yhub.Server.{AccessType, r, rw, has_write_access}
use yhub.Cors.{origin_allowed}
use yhub.Api.{
  Properties, returned, thrown, api_error, other_error, Attempt, Result, Plugin, Encodings,
  authenticate, read_user, read_access, check_access, suffices, error_reply, content, value,
  Request, Endpoint, prepare, send_error_response, fail, error_of, finish, reply_with, render, call,
  handle_request, handle,
}
use yhub.Api.Access.{CheckedIf, handle-CheckedIf}
use yhub.Api.Failing.{Encodes, EncodesTexts}
use yhub.Api.Replies.{EndpointFailsWell, handle-answers}

-- A value is its encoding; none is a BigInt, which no encoder takes.
abbrev Value : Type 0
Value = Option Bytes

abbrev joined : Properties Value → Value
joined [] = some []
joined ((name, none) ∷ fields) = none
joined ((name, some v) ∷ fields) =
    let rest = joined fields in elim rest [ none ↦ none | some left ↦ some (name ++ v ++ left) ]

abbrev encodings : Encodings Value
encodings = record {
  text = λ t. some t;
  object = joined;
  encode_any = λ v. v;
  decode_any = λ b. some (some b);
  stringify = λ v. v;
}

joined-texts :
    (fields : List (Text × Text)) → is_some (joined (map (λ f. (f.0, some f.1)) fields)) ≡ true
joined-texts [] = refl
joined-texts ((name, t) ∷ fields) =
    elim (Option-cases (joined (map (λ f. (f.0, some f.1)) fields))) [
      | inl e ↦ ground (arith, joined-texts fields, e)
      | inr (left, e) ↦ simp (e) refl
    ]

encodings-texts : EncodesTexts encodings
encodings-texts fields true = joined-texts fields
encodings-texts fields false = joined-texts fields

abbrev plugin : Option AccessType → Plugin Value
plugin access = record {
  read_auth_info = returned (some (codes "u"));
  get_access = λ userid. returned access;
}

-- The body is a number of one byte.
abbrev endpoint_of : Attempt Value (Result Value) → Endpoint ℕ ℕ Value
endpoint_of result = record {
  required_access = rw;
  cors = none;
  coerce_query = some (λ q. returned q);
  with_branch = λ q. q;
  read_body = some (λ json bytes. elim bytes [ [] ↦ thrown other_error | n ∷ ns ↦ returned n ]);
  handler = λ req. result;
  encodings = encodings;
}

abbrev endpoint : Endpoint ℕ ℕ Value
endpoint = endpoint_of (returned (value (some (codes "5"))))

abbrev conflict : Endpoint ℕ ℕ Value
conflict =
    endpoint_of (thrown (api_error 409 (codes "taken") ((codes "by", some (codes "v")) ∷ [])))

abbrev big_conflict : Endpoint ℕ ℕ Value
big_conflict = endpoint_of (thrown (api_error 409 (codes "taken") ((codes "at", none) ∷ [])))

abbrev request : Request ℕ
request = record {
  origin = [];
  host = [];
  sec_fetch_site = [];
  accepts_json = true;
  is_json = false;
  query = 1;
  body = some (7 ∷ []);
  aborted = λ stage. false;
}

answered :
    (handle endpoint (some (plugin (some rw))) request).1
    ≡ some (content (codes "application/json") (codes "5"))
unfolding handle origin_allowed text_eq authenticate read_user read_access check_access suffices
    has_write_access handle_request prepare call finish reply_with render
answered = refl

refused :
    (handle endpoint (some (plugin (some r))) request).1
    ≡ some (error_reply 403 true (codes "errorForbidden"))
unfolding handle origin_allowed text_eq authenticate read_user read_access check_access suffices
    has_write_access handle_request fail error_of send_error_response
refused = refl

unencodable_unanswered : (handle big_conflict (some (plugin (some rw))) request).1 ≡ none
unfolding handle origin_allowed text_eq authenticate read_user read_access check_access suffices
    has_write_access handle_request prepare call finish fail error_of send_error_response
unencodable_unanswered = refl

handle-CheckedIf_example :
    CheckedIf endpoint
      (some (plugin (some rw)))
      request
      (handle endpoint (some (plugin (some rw))) request).0
handle-CheckedIf_example = handle-CheckedIf endpoint (some (plugin (some rw))) request

conflict-body : Encodes encodings (some (codes "errortakenbyv"))
conflict-body true = refl
conflict-body false = refl

conflict-FailsWell : EndpointFailsWell conflict (some (plugin (some rw))) request
conflict-FailsWell = record {
  texts = encodings-texts;
  auth = (tt, λ userid. tt);
  query = tt;
  body = tt;
  handler = λ api_req. conflict-body;
}

handle-answers_example : is_some (handle conflict (some (plugin (some rw))) request).1 ≡ true
handle-answers_example =
    handle-answers conflict (some (plugin (some rw))) request (λ stage. refl) conflict-FailsWell

-- ===== src/Tests/Endpoints.antt =====
-- src/api.js: two endpoints of one name.
use yhub.Base.{
  true, false, not, none, some, List, [], ◌∷◌, codes, text_eq, every, split, decimal, is_digit, ◌≡◌,
  refl,
}
use yhub.Server.{r, rw}
use yhub.Cors.Config.{absent, resolve_cors, is_letter}
use yhub.Api.Registering.{
  doc, get, post, Method, MethodDef, EndpointDef, Route, is_segment_char, is_segment, is_param,
  add_param, add_params, path_params, param_offset_of, route_key, is_method, required_access_of,
  route_of, register_endpoint, register_endpoints, register_api,
}
use yhub.Api.Routes.{collides, distinct, register_api-distinct}

abbrev method : Method → MethodDef
method m = record {
  method = m;
  has_handler = true;
  valid_purpose = true;
  has_body = false;
  specs_compile = true;
}

abbrev comments : EndpointDef
comments = record {
  name = some (codes "c");
  version = some (codes "v1");
  scope = some doc;
  path = [];
  valid_purpose = true;
  cors = absent;
  methods = method get ∷ method post ∷ [];
}

abbrev comment : EndpointDef
comment = record comments { path = codes "/:id" }

abbrev routes : List Route
routes =
    record {
      name = codes "c";
      version = codes "v1";
      params = [];
      param_offset = 2;
      methods = (get, r) ∷ (post, rw) ∷ [];
      cors = none;
    }
    ∷ record {
      name = codes "c";
      version = codes "v1";
      params = codes "id" ∷ [];
      param_offset = 2;
      methods = (get, r) ∷ (post, rw) ∷ [];
      cors = none;
    }
    ∷ []

registers : register_api none (comments ∷ comment ∷ []) ≡ some routes
unfolding register_api register_endpoints register_endpoint route_of path_params add_params
    add_param is_param is_segment is_segment_char is_letter is_digit param_offset_of route_key
    is_method required_access_of resolve_cors split text_eq decimal
registers = refl

twice : register_api none (comments ∷ comments ∷ []) ≡ none
unfolding register_api register_endpoints register_endpoint route_of path_params is_segment
    is_segment_char is_letter is_digit param_offset_of route_key is_method required_access_of
    resolve_cors text_eq decimal
twice = refl

register_api-distinct_example :
    (distinct routes ≡ true)
    × (every (λ s. not (collides (codes "ws") (codes "v1") 2 s)) routes ≡ true)
register_api-distinct_example =
    register_api-distinct none (comments ∷ comment ∷ []) routes registers

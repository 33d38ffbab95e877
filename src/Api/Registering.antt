-- ===== src/Api/Registering.antt =====
-- src/api.js: the registration of endpoints, at the start of the server; none is an exception. What
-- `s.$` makes of a schema is a parameter of a method: whether it compiles.
use yhub.Base.{
  ℕ, ◌+◌, Bool, true, false, not, ◌&&◌, ◌||◌, Option, none, some, List, [], ◌∷◌, ◌++◌, Text, codes,
  text_eq, if◌then◌else◌, ◌==◌, length, some_of, every, split, decimal, is_digit, ◌>>=◌,
}
use yhub.Cors.{ResolvedCors}
use yhub.Cors.Config.{
  Config, EndpointCors, Resolution, throws, disabled, resolved, resolve_cors, is_letter,
}
use yhub.Server.{AccessType, r, rw}

pub data Scope : Type 0 where
  doc : Scope
  org : Scope
  global : Scope

pub data Method : Type 0 where
  get : Method
  post : Method
  put : Method
  patch : Method
  delete : Method

pub record MethodDef : Type 0 where
  pub method : Method
  pub has_handler : Bool
  -- Whether its purpose, or else the endpoint's, is null or a string.
  pub valid_purpose : Bool
  pub has_body : Bool
  pub specs_compile : Bool

-- None is a value of another type, or no scope.
pub record EndpointDef : Type 0 where
  pub name : Option Text
  pub version : Option Text
  pub scope : Option Scope
  pub path : Text
  pub valid_purpose : Bool
  pub cors : EndpointCors
  -- The methods that the endpoint defines, in the order of `apiMethods`.
  pub methods : List MethodDef

-- A route, of which `app[method]` registers each method.
pub record Route : Type 0 where
  pub name : Text
  pub version : Text
  pub params : List Text
  pub param_offset : ℕ
  pub methods : List (Method × AccessType)
  pub cors : Option ResolvedCors

unfoldable pub is_segment_char : ℕ → Bool
unfolding is_letter is_digit
is_segment_char c = is_letter c || is_digit c || c == b'_' || c == b'-'

-- `apiSegmentRegex`
unfoldable pub is_segment : Text → Bool
unfolding is_segment_char
is_segment s = not (text_eq s []) && every is_segment_char s

-- `resolveApiPrefix`; the prefix may be left out, and none inside is no string.
unfoldable pub resolve_api_prefix : Option (Option Text) → Option Text
unfolding is_segment
resolve_api_prefix none = some (codes "api")
resolve_api_prefix (some none) = none
resolve_api_prefix (some (some prefix)) = if is_segment prefix then some prefix else none

abbrev pub has_text : Text → List Text → Bool
has_text t ts = some_of (text_eq t) ts

unfoldable pub is_param : Text → List Text → Bool
unfolding is_segment
is_param param params =
    is_segment param
    && not (
        text_eq param (codes "org")
        || text_eq param (codes "docid")
        || text_eq param (codes "branch"))
    && not (has_text param params)

-- A segment of a path is a parameter.
unfoldable pub add_param : Text → List Text → Option (List Text)
unfolding is_param
add_param [] params = none
add_param (c ∷ param) params =
    if c == b':' && is_param param params then some (params ++ param ∷ []) else none

unfoldable pub add_params : List Text → List Text → Option (List Text)
unfolding add_param
add_params [] params = some params
add_params (seg ∷ segs) params = add_param seg params >>= λ params'. add_params segs params'

unfoldable pub path_params : Text → Option (List Text)
unfolding add_params
path_params [] = some []
path_params (c ∷ path) = if c == b'/' then add_params (split b'/' path) [] else none

unfoldable pub param_offset_of : Scope → ℕ
param_offset_of doc = 2
param_offset_of org = 1
param_offset_of global = 0

unfoldable pub route_key : Text → Text → ℕ → Text
route_key name version depth = name ++ codes "/" ++ version ++ codes "/" ++ decimal depth

abbrev pub is_get : Method → Bool
is_get get = true
is_get _ = false

unfoldable pub is_method : MethodDef → Bool
is_method m =
    m.has_handler && m.valid_purpose && m.specs_compile && not (m.has_body && is_get m.method)

unfoldable pub required_access_of : Method → AccessType
required_access_of get = r
required_access_of _ = rw

abbrev pub registered_methods : List MethodDef → List (Method × AccessType)
registered_methods [] = []
registered_methods (m ∷ ms) = (m.method, required_access_of m.method) ∷ registered_methods ms

abbrev pub resolution : Resolution → Option (Option ResolvedCors)
resolution throws = none
resolution disabled = some none
resolution (resolved cors) = some (some cors)

abbrev pub guard : Bool → Option Route → Option Route
guard true route = route
guard false route = none

abbrev pub no_methods : List MethodDef → Bool
no_methods [] = true
no_methods (m ∷ ms) = false

-- The checks that are left where the parts of an endpoint are read.
unfoldable pub route_of :
    EndpointDef → List Text → Text → Text → Scope → Option ResolvedCors → List Text → Option Route
unfolding is_segment param_offset_of route_key is_method
route_of def registered name version scope cors params =
    guard (is_segment name && is_segment version && def.valid_purpose) (
      guard
        (not (has_text (route_key name version (param_offset_of scope + length params)) registered))
        (guard (not (no_methods def.methods) && every is_method def.methods) (
          some (record {
            name = name;
            version = version;
            params = params;
            param_offset = param_offset_of scope;
            methods = registered_methods def.methods;
            cors = cors;
          }))))

-- The body of the loop over the endpoints.
unfoldable pub register_endpoint : Option Config → EndpointDef → List Text → Option Route
unfolding route_of path_params
register_endpoint server def registered = do
  name ← def.name
  version ← def.version
  scope ← def.scope
  cors ← resolution (resolve_cors server def.cors)
  params ← path_params def.path
  route_of def registered name version scope cors params

abbrev pub key_of : Route → Text
key_of route = route_key route.name route.version (route.param_offset + length route.params)

unfoldable pub register_endpoints :
    Option Config → List EndpointDef → List Text → Option (List Route)
unfolding register_endpoint
register_endpoints server [] registered = some []
register_endpoints server (def ∷ defs) registered =
    register_endpoint server def registered >>= λ route.
    register_endpoints server defs (registered ++ key_of route ∷ []) >>= λ routes.
    some (route ∷ routes)

-- `registerApi`: the websocket endpoint occupies its key.
unfoldable pub register_api : Option Config → List EndpointDef → Option (List Route)
unfolding register_endpoints
register_api server defs = register_endpoints server defs (codes "ws/v1/2" ∷ [])

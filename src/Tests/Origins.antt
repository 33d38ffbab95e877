-- ===== src/Tests/Origins.antt =====
-- Origins of requests.
use yhub.Base.{
  ◌<◌, true, false, not, none, some, [], ◌∷◌, ◌++◌, Text, codes, some_of, text_eq, strip_prefix,
  length, ◌≡◌, ◌↔◌, refl,
}
use yhub.Cors.{
  ResolvedCors, OriginPattern, origin_allowed, write_cors_preflight, write_cors_response,
  matches_pattern, allowed_origin, listed_origin, to_lower_case, lower_char, starts_with, ends_with,
  same_host, after_scheme, foreign_site, write_origin,
}
use yhub.Cors.Wildcards.{matches_pattern_iff}
use yhub.Cors.Gate.{origin_allowed-preflight}
use yhub.Base.{decimal, is_digit}
use yhub.Cors.Config.{
  Config, undefined, null, bool, whole, str, arr, fields, throws, resolved, resolve_cors,
  resolve_config, merge_fields, is_cors, conflicts, add_origins, resolved_cors, is_known,
  cors_fields, get_field, set_field, names_authorization, is_star, is_wildcard_origin,
  is_plain_origin, has_default_port, split_star, has_port, host_of, after_scheme_chars, is_labels,
  is_label_rest, is_label_char, is_wild_char, is_host_char, ends_host, is_space, is_letter,
  is_scheme, join, add_origin,
}
use yhub.Cors.Sound.{SoundIf, resolve_cors-SoundIf}
use yhub.Cors.Written.{ExclusiveIf, resolve_cors-ExclusiveIf}
use yhub.Cors.Merging.{over, merge_fields-some, resolve_cors-unknown}

abbrev wildcard : OriginPattern
wildcard = record { prefix = codes "https://"; suffix = codes ".x.io" }

abbrev config : ResolvedCors
config = record {
  origin_all = false;
  origins = some (codes "https://a.io" ∷ []);
  origin_patterns = some (wildcard ∷ []);
  credentials = true;
  trust_same_origin = true;
  allow_headers = none;
  expose_headers = some (codes "ETag");
  max_age = codes "3600";
}

matched : matches_pattern (codes "https://b.x.io") wildcard ≡ true
unfolding matches_pattern starts_with ends_with strip_prefix text_eq
matched = refl

apex_not_matched : matches_pattern (codes "https://.x.io") wildcard ≡ false
unfolding matches_pattern starts_with ends_with strip_prefix text_eq
apex_not_matched = refl

allows_upper_case : allowed_origin config (codes "https://B.x.io") ≡ some (codes "https://B.x.io")
unfolding allowed_origin listed_origin to_lower_case lower_char matches_pattern starts_with
    ends_with strip_prefix text_eq
allows_upper_case = refl

same_origin : origin_allowed none (codes "https://a.io") (codes "A.io") (codes "same-origin") ≡ true
unfolding origin_allowed foreign_site same_host after_scheme to_lower_case lower_char starts_with
    strip_prefix text_eq
same_origin = refl

matches_pattern_iff_example : (matches_pattern (codes "https://b.x.io") wildcard ≡ true) ↔ (
    (mid : Text) × (0 < length mid)
    × (codes "https://b.x.io" ≡ codes "https://" ++ (mid ++ codes ".x.io")))
matches_pattern_iff_example = matches_pattern_iff (codes "https://b.x.io") wildcard

origin_allowed-preflight_example :
    ((write_cors_preflight (some config) (codes "https://c.io") (codes "GET")).0 ≡ true
      → origin_allowed (some config) (codes "https://c.io") (codes "a.io") [] ≡ true)
    × ((write_cors_preflight (some config) (codes "https://c.io") (codes "GET")).0 ≡ false
        → (some_of
              (λ h. not (text_eq h.0 (codes "Vary")))
              (write_cors_preflight (some config) (codes "https://c.io") (codes "GET")).1
            ≡ false)
          × (some_of
                (λ h. not (text_eq h.0 (codes "Vary")))
                (write_cors_response (some config) (codes "https://c.io") none)
              ≡ false))
origin_allowed-preflight_example =
    origin_allowed-preflight (some config) (codes "https://c.io") (codes "GET") (codes "a.io") []
      none

abbrev server_cors : Config
server_cors =
    (codes "origin", arr (some (codes "https://*.x.io") ∷ some (codes "https://A.io") ∷ []))
    ∷ (codes "credentials", bool true)
    ∷ []

abbrev overrides : Config
overrides = (codes "maxAge", whole 5) ∷ (codes "credentials", undefined) ∷ []

abbrev open_cors : Config
open_cors = (codes "origin", str (codes "*")) ∷ []

abbrev resolved_config : ResolvedCors
resolved_config = record {
  origin_all = false;
  origins = some (codes "https://a.io" ∷ []);
  origin_patterns = some (wildcard ∷ []);
  credentials = true;
  trust_same_origin = true;
  allow_headers = some (codes "Content-Type, Authorization");
  expose_headers = none;
  max_age = codes "5";
}

resolves : resolve_cors (some server_cors) (fields overrides) ≡ resolved resolved_config
unfolding resolve_cors resolve_config merge_fields is_cors conflicts add_origins resolved_cors
    is_known cors_fields get_field set_field names_authorization is_star is_wildcard_origin
    is_plain_origin has_default_port split_star has_port host_of after_scheme_chars is_labels
    is_label_rest is_label_char is_wild_char is_host_char ends_host is_space is_letter is_scheme
    to_lower_case lower_char strip_prefix text_eq ends_with join decimal is_digit add_origin
resolves = refl

star_without_credentials : resolve_cors (some server_cors) (fields open_cors) ≡ throws
unfolding resolve_cors resolve_config merge_fields is_cors conflicts is_known cors_fields get_field
    set_field is_star text_eq
star_without_credentials = refl

resolve_cors-SoundIf_example : SoundIf (resolve_cors (some server_cors) (fields overrides))
resolve_cors-SoundIf_example = resolve_cors-SoundIf (some server_cors) (fields overrides)

resolve_cors-ExclusiveIf_example :
    ExclusiveIf (write_origin resolved_config (codes "https://A.io") none)
resolve_cors-ExclusiveIf_example =
    resolve_cors-ExclusiveIf (some server_cors) (fields overrides) resolved_config resolves
      (codes "https://A.io") none

abbrev merged_config : Config
merged_config =
    (codes "origin", arr (some (codes "https://*.x.io") ∷ some (codes "https://A.io") ∷ []))
    ∷ (codes "credentials", bool true)
    ∷ (codes "maxAge", whole 5)
    ∷ []

merges : merge_fields server_cors overrides ≡ some merged_config
unfolding merge_fields is_known cors_fields get_field set_field text_eq
merges = refl

merge_fields-some_example :
    get_field (codes "credentials") merged_config
    ≡ over (get_field (codes "credentials") overrides) (get_field (codes "credentials") server_cors)
unfolding text_eq
merge_fields-some_example =
    merge_fields-some (codes "credentials") server_cors overrides merged_config refl merges

abbrev misspelt : Config
misspelt = (codes "origins", null) ∷ []

resolve_cors-unknown_example : resolve_cors (some server_cors) (fields misspelt) ≡ throws
unfolding is_known cors_fields text_eq
resolve_cors-unknown_example = resolve_cors-unknown (some server_cors) (fields misspelt) refl refl

-- One label in front of a port, with a dot between them, counts as two.
one_label_accepted : is_wildcard_origin (codes "https://*.com.:8080") ≡ true
unfolding is_wildcard_origin host_of after_scheme_chars is_labels is_label_rest is_label_char
    is_wild_char ends_host is_space is_letter is_scheme strip_prefix is_digit text_eq
one_label_accepted = refl

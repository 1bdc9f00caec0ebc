-- ===== src/Access/Ports.antt =====
-- runtime/access.py: the port mappings of a compose file, as texts and as objects.
use Prim.Native.Char.{Char}
use ok.Prelude.{
  ℕ, suc, ◌-◌, String, Bool, true, false, not, ◌&&◌, List, [], ◌∷◌, Option, none, some, ◌==◌, ltb,
  codes, begins, find, take_text, drop_text, text_length, decimal, ◌or◌, if◌then◌else◌,
}
use ok.Json.{Json, null, bool, num, str, arr, obj, nil, cons, end, field, get_field}

pub record Exposure : Type 0 where
  pub service : String
  pub host_ip : String
  pub published : String
  pub target : String
  pub protocol : String

-- a character, as a text
abbrev pub is_char : Char → String → Bool
is_char c s = String.◌∷◌ c String.[] == s

-- a character in front of the first part
abbrev pub onto_first : Char → List String → List String
onto_first c [] = String.◌∷◌ c String.[] ∷ []
onto_first c (p ∷ ps) = String.◌∷◌ c p ∷ ps

-- `in_placeholder` behind a character
abbrev pub next_in_placeholder : Bool → Char → String → Bool
next_in_placeholder true c rest = not (is_char c "}")
next_in_placeholder false c rest = is_char c "$" && begins (codes rest) (codes "{")

-- the loop of `_split_port_mapping`, by the part that is being read and the ones behind it
unfoldable pub split_from : Bool → String → List String
split_from in_placeholder String.[] = "" ∷ []
split_from in_placeholder (String.◌∷◌ c s) =
    let rest = split_from (next_in_placeholder in_placeholder c s) s in
    if not in_placeholder && is_char c ":" then "" ∷ rest else onto_first c rest

-- `_split_port_mapping`
unfoldable pub split_port_mapping : String → List String
unfolding split_from
split_port_mapping port_spec = if port_spec == "" then [] else split_from false port_spec

-- the text up to the last "/", and the text behind it; `none` where there is none
unfoldable pub rsplit_slash : String → Option (String × String)
rsplit_slash String.[] = none
rsplit_slash (String.◌∷◌ c s) = elim (rsplit_slash s) [
  | some (front, back) ↦ some (String.◌∷◌ c front, back)
  | none ↦ if is_char c "/" then some ("", s) else none
]

-- the parts of a mapping, as an exposure
abbrev pub exposure_of_parts : String → String → List String → Option Exposure
exposure_of_parts service protocol (target ∷ []) = some (record {
  service = service;
  host_ip = "";
  published = "";
  target = target;
  protocol = protocol;
})
exposure_of_parts service protocol (published ∷ target ∷ []) = some (record {
  service = service;
  host_ip = "";
  published = published;
  target = target;
  protocol = protocol;
})
exposure_of_parts service protocol (host_ip ∷ published ∷ target ∷ []) = some (record {
  service = service;
  host_ip = host_ip;
  published = published;
  target = target;
  protocol = protocol;
})
exposure_of_parts service protocol _ = none

-- `_string_exposure`
unfoldable pub string_exposure : String → String → Option Exposure
unfolding rsplit_slash split_port_mapping
string_exposure service port = elim (rsplit_slash port) [
  | none ↦ exposure_of_parts service "tcp" (split_port_mapping port)
  | some (port_spec, protocol) ↦ exposure_of_parts service protocol (split_port_mapping port_spec)
]

-- `str(value or default)` on a value that may be missing; `repr` is `str` on lists and objects
abbrev pub text_or : (Json → String) → String → Option Json → String
text_or repr default none = default
text_or repr default (some null) = default
text_or repr default (some (bool b)) = if b then "True" else default
text_or repr default (some (num n)) = if ltb 0 n then decimal n else default
text_or repr default (some (str s)) = s or default
text_or repr default (some (arr nil)) = default
text_or repr default (some (arr (cons x xs))) = repr (arr (cons x xs))
text_or repr default (some (obj end)) = default
text_or repr default (some (obj (field k v rest))) = repr (obj (field k v rest))

-- `_exposure`
unfoldable pub exposure : (Json → String) → String → Json → Option Exposure
unfolding string_exposure decimal
exposure repr service (str port) = string_exposure service port
exposure repr service (obj port) = some (record {
  service = service;
  host_ip = text_or repr "" (get_field port "host_ip");
  published = text_or repr "" (get_field port "published");
  target = text_or repr "" (get_field port "target");
  protocol = text_or repr "tcp" (get_field port "protocol");
})
exposure repr service _ = none

-- `value.startswith(prefix)`
abbrev pub starts_with : String → String → Bool
starts_with prefix value = begins (codes value) (codes prefix)

-- `value.endswith("}")`
unfoldable pub ends_with_brace : String → Bool
ends_with_brace String.[] = false
ends_with_brace (String.◌∷◌ c s) =
    let rest = ends_with_brace s in if s == "" then is_char c "}" else rest

-- what stands behind ":-" in a placeholder
abbrev pub default_of : String → String → Option ℕ → String
default_of value expr none = value
default_of value expr (some index) = drop_text (suc (suc index)) expr

-- `_normalize_port_expression`
unfoldable pub normalize_port_expression : String → String
unfolding ends_with_brace take_text drop_text find
normalize_port_expression value =
    let expr = take_text (text_length value - 3) (drop_text 2 value) in
    if starts_with "${" value && ends_with_brace value
    then default_of value expr (find (codes expr) (codes ":-"))
    else value

-- `_normalized_exposure`
unfoldable pub normalized_exposure : Exposure → Exposure
unfolding normalize_port_expression
normalized_exposure e = record e {
  host_ip = normalize_port_expression e.host_ip;
  published = normalize_port_expression e.published;
  target = normalize_port_expression e.target;
}

-- ===== src/Json.antt =====
-- JSON values, as `json.loads` returns them, and the readers of them in governance/permissions.py,
-- governance/identity.py and runtime/webhooks.py. A text column that holds JSON is modelled by
-- what `json.loads` gives for it: `none` where that raises JSONDecodeError.
use ok.Prelude.{ℕ, String, Bool, List, [], ◌∷◌, Option, none, some, ◌==◌, if◌then◌else◌}

mutual
  pub data Json : Type 0 where
    null : Json
    bool : Bool → Json
    num : ℕ → Json
    str : String → Json
    arr : Items → Json
    obj : Fields → Json

  pub data Items : Type 0 where
    nil : Items
    cons : Json → Items → Items

  pub data Fields : Type 0 where
    end : Fields
    field : String → Json → Fields → Fields

abbrev pub JsonText : Type 0
JsonText = Option Json

-- a JSON array of texts, as a list of them is dumped
abbrev pub items : List String → Items
items [] = nil
items (s ∷ ss) = cons (str s) (items ss)

abbrev pub dumps : List String → JsonText
dumps ss = some (arr (items ss))

-- `[item for item in value if isinstance(item, str)]`
abbrev pub item_strings : Items → List String
item_strings nil = []
item_strings (cons (str s) rest) = s ∷ item_strings rest
item_strings (cons null rest) = item_strings rest
item_strings (cons (bool _) rest) = item_strings rest
item_strings (cons (num _) rest) = item_strings rest
item_strings (cons (arr _) rest) = item_strings rest
item_strings (cons (obj _) rest) = item_strings rest

unfoldable pub decode_json_string_list : JsonText → List String
decode_json_string_list (some (arr xs)) = item_strings xs
decode_json_string_list _ = []

unfoldable pub decode_permission_refs : JsonText → List String
unfolding decode_json_string_list
decode_permission_refs raw = decode_json_string_list raw

-- `value.get(key)` on an object
abbrev pub get_field : Fields → String → Option Json
get_field end key = none
get_field (field k v rest) key = if k == key then some v else get_field rest key

-- `**metadata` with a key set behind it
abbrev pub set_field : Fields → String → Json → Fields
set_field end key v = field key v end
set_field (field k w rest) key v =
    let set = set_field rest key v in if k == key then field k v rest else field k w set

-- `value if isinstance(value, str) else ""`
abbrev pub text_of : Option Json → String
text_of (some (str s)) = s
text_of _ = ""

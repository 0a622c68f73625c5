-- ===== src/Json.antt =====
-- What `json.loads` returns, and the tests that the decoders of
-- packages/readonly-analyzer/src/liqvera_readonly_analyzer/reconstruction/ make of it.
pub mod Builtins
use liqvera.Prelude.{
  Bool, true, false, ◌&&◌, List, [], ◌∷◌, ◌++◌, Option, none, some, if◌then◌else◌, all,
}
use liqvera.Prelude.Int.{ℤ}
use liqvera.Python.{Str, str_eq, any}

mutual
  -- A float is kept as the text of its repr: no decoder reads one.
  pub data Json : Type 0 where
    null : Json
    boolean : Bool → Json
    integer : ℤ → Json
    real : Str → Json
    text : Str → Json
    array : Items → Json
    object : Members → Json

  pub data Items : Type 0 where
    no_items : Items
    item : Json → Items → Items

  -- The keys of a dict, each once.
  pub data Members : Type 0 where
    no_members : Members
    member : Str → Json → Members → Members

-- `document.get(key)`
unfoldable pub get : Str → Members → Json
get key no_members = null
get key (member k v rest) = let later = get key rest in if str_eq k key then v else later

-- `document[key]` where `key in document`
unfoldable pub find : Str → Members → Option Json
find key no_members = none
find key (member k v rest) = let later = find key rest in if str_eq k key then some v else later

-- The value, if it is of the type that is asked for.
abbrev pub as_text : Json → Option Str
as_text (text s) = some s
as_text _ = none

abbrev pub as_integer : Json → Option ℤ
as_integer (integer z) = some z
as_integer _ = none

abbrev pub as_array : Json → Option Items
as_array (array xs) = some xs
as_array _ = none

abbrev pub as_object : Json → Option Members
as_object (object ms) = some ms
as_object _ = none

-- `value == "..."` for a text
abbrev pub is_text : Str → Json → Bool
is_text s (text t) = str_eq t s
is_text s _ = false

abbrev pub member_of : Str → List Str → Bool
member_of s texts = any (str_eq s) texts

-- `set(document)`
unfoldable pub keys : Members → List Str
keys no_members = []
keys (member k v rest) = k ∷ keys rest

-- `required <= set(document) <= required | optional`
unfoldable pub has_keys : List Str → List Str → Members → Bool
has_keys required optional document =
    all (λ k. member_of k (keys document)) required
    && all (λ k. member_of k (required ++ optional)) (keys document)

-- `del document[key]`
unfoldable pub remove : Str → Members → Members
remove key no_members = no_members
remove key (member k v rest) =
    let later = remove key rest in if str_eq k key then later else member k v later

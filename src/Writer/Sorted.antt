-- ===== src/Writer/Sorted.antt =====
-- `json.dumps(..., sort_keys=True)` writes the keys of each dict in the order of their code points;
-- `sorted` is the document with its keys in that order.
use liqvera.Prelude.{if◌then◌else◌}
use liqvera.Python.{Str}
use liqvera.Market.Common.{str_lt}
use liqvera.Json.{
  Json, null, boolean, integer, real, text, array, object, Items, no_items, item, Members,
  no_members, member,
}

unfoldable pub insert_member : Str → Json → Members → Members
unfolding str_lt
insert_member key v no_members = member key v no_members
insert_member key v (member k w rest) =
    let later = insert_member key v rest in
    if str_lt k key then member k w later else member key v (member k w rest)

unfoldable mutual
  pub sorted : Json → Json
  sorted null = null
  sorted (boolean b) = boolean b
  sorted (integer z) = integer z
  sorted (real s) = real s
  sorted (text s) = text s
  sorted (array xs) = array (sorted_items xs)
  sorted (object ms) = object (sorted_members ms)

  pub sorted_items : Items → Items
  sorted_items no_items = no_items
  sorted_items (item j xs) = item (sorted j) (sorted_items xs)

  pub sorted_members : Members → Members
  sorted_members no_members = no_members
  sorted_members (member k v rest) = insert_member k (sorted v) (sorted_members rest)

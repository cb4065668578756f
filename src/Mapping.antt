-- ===== src/Mapping.antt =====
-- `MatterIpsoMapping` of main/include/BridgeUtils.h and `GenerateMatterIpsoMapping` of main/main.cpp.
pub mod Lookup
pub mod Listed
pub mod Unordered
pub mod Encoded
use mathlib.Core.Logic.{ite}
use mathlib.Core.Option
use matter_lwm2m_bridge.Base.{
  ℕ, zero, suc, ◌+◌, ◌-◌, ◌^◌, ◌≡◌, refl, ℤ, pos, negsuc, to_unsigned, fits_int32, Bool, true,
  false, ◌&&◌, Option, none, some, List, [], ◌∷◌, ltb, if◌then◌else◌, Result, ok, err, Fault, ◌>>=◌,
}
use matter_lwm2m_bridge.Text.{Bytes, codes, Bytes_discrete}
use matter_lwm2m_bridge.Slashes.{extract_between_slashes}
use matter_lwm2m_bridge.BiMap.{BiMap, empty, insert}
use matter_lwm2m_bridge.Json.{
  Json, null, boolean, number_integer, number_float, string, array, object, Elements, no_elements,
  element, Members, no_members, member,
}

pub record MatterIpsoMapping : Type 0 where
  pub cluster_object_map : BiMap
  pub attribute_resource_map : BiMap
  pub command_resource_map : BiMap
  pub event_resource_map : BiMap

abbrev pub no_mapping : MatterIpsoMapping
no_mapping = record {
  cluster_object_map = empty;
  attribute_resource_map = empty;
  command_resource_map = empty;
  event_resource_map = empty;
}

unfoldable pub find_member : Bytes → Members → Option Json
find_member k no_members = none
find_member k (member j v ms) = ite (Bytes_discrete j k) (some v) (find_member k ms)

-- `json.contains(k)` and `json.at(k)`: the member, if the value is an object that has it.
unfoldable pub at_key : Bytes → Json → Option Json
unfolding find_member
at_key k (object ms) = find_member k ms
at_key k _ = none

abbrev pub elements_of : Elements → List (Option Bytes × Json)
elements_of no_elements = []
elements_of (element v es) = (none, v) ∷ elements_of es

abbrev pub members_of : Members → List (Option Bytes × Json)
members_of no_members = []
members_of (member k v ms) = (some k, v) ∷ members_of ms

-- What an iterator visits: the members of an object with their keys, the elements of an array, a
-- single value once, and nothing for null. `key()` throws where there is no key.
unfoldable pub items : Json → List (Option Bytes × Json)
items null = []
items (object ms) = members_of ms
items (array es) = elements_of es
items v = (none, v) ∷ []

-- An integer of 64 bits cut to 32.
abbrev pub wrap_int32 : ℤ → ℤ
wrap_int32 v = let u = to_unsigned 32 v in if ltb u (2 ^ 31) then pos u else negsuc (2 ^ 32 - 1 - u)

-- `get_to` of an `int`: numbers and truth values are converted, all else is a type error. A
-- floating-point number out of range is undefined behaviour.
unfoldable pub get_to_int : Json → Result ℤ
get_to_int (number_integer v) = ok (wrap_int32 v)
get_to_int (number_float v) = if fits_int32 v then ok v else err Fault.undefined
get_to_int (boolean b) = ok (if b then pos 1 else pos 0)
get_to_int _ = err Fault.type_error

-- `it.key()`, which an iterator over anything but an object does not have.
unfoldable pub key_of : Option Bytes → Result Bytes
key_of none = err Fault.invalid_iterator
key_of (some k) = ok k

-- The kinds of element that the loop tells apart by the part of the key between its last slashes.
pub data Kind : Type 0 where
  sdf_thing sdf_object sdf_property sdf_action sdf_event other : Kind

unfoldable pub kind_of : Bytes → Kind
kind_of name = ite (Bytes_discrete name (codes "sdfThing")) sdf_thing (
    ite (Bytes_discrete name (codes "sdfObject")) sdf_object (
      ite (Bytes_discrete name (codes "sdfProperty")) sdf_property (
        ite (Bytes_discrete name (codes "sdfAction")) sdf_action
          (ite (Bytes_discrete name (codes "sdfEvent")) sdf_event other))))

-- What the ladder does for each kind; an `sdfThing` has no equivalent in LwM2M.
unfoldable pub insert_by_kind : Kind → ℤ → ℤ → MatterIpsoMapping → MatterIpsoMapping
insert_by_kind sdf_object matter_id oma_id mapping = record mapping {
  cluster_object_map = insert matter_id oma_id mapping.cluster_object_map;
}
insert_by_kind sdf_property matter_id oma_id mapping = record mapping {
  attribute_resource_map = insert matter_id oma_id mapping.attribute_resource_map;
}
insert_by_kind sdf_action matter_id oma_id mapping = record mapping {
  command_resource_map = insert matter_id oma_id mapping.command_resource_map;
}
insert_by_kind sdf_event matter_id oma_id mapping = record mapping {
  event_resource_map = insert matter_id oma_id mapping.event_resource_map;
}
insert_by_kind _ matter_id oma_id mapping = mapping

-- The body of the loop, given the key and the two members of the value, if it has them.
unfoldable pub add_ids :
    Option Bytes → Option Json → Option Json → MatterIpsoMapping → Result MatterIpsoMapping
add_ids key none oma_value mapping = ok mapping
add_ids key (some matter_value) none mapping = ok mapping
add_ids key (some matter_value) (some oma_value) mapping = do
  matter_id ← get_to_int matter_value
  oma_id ← get_to_int oma_value
  k ← key_of key
  ok (insert_by_kind (kind_of (extract_between_slashes k)) matter_id oma_id mapping)

unfoldable pub add_item : Option Bytes × Json → MatterIpsoMapping → Result MatterIpsoMapping
add_item (key, value) mapping =
    add_ids key (at_key (codes "matter:id") value) (at_key (codes "oma:id") value) mapping

unfoldable pub add_items : List (Option Bytes × Json) → MatterIpsoMapping → Result MatterIpsoMapping
add_items [] mapping = ok mapping
add_items (i ∷ is) mapping = do m ← add_item i mapping; add_items is m

-- The loop over the member "map", if there is one.
unfoldable pub add_map : Option Json → MatterIpsoMapping → Result MatterIpsoMapping
add_map none mapping = ok mapping
add_map (some entries) mapping = add_items (items entries) mapping

unfoldable pub generate_matter_ipso_mapping : Json → Result MatterIpsoMapping
generate_matter_ipso_mapping json = add_map (at_key (codes "map") json) no_mapping

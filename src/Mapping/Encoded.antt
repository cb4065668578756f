-- ===== src/Mapping/Encoded.antt =====
-- `GenerateMatterIpsoMapping` on a well-formed mapping file: what is in the file can be looked up.
use matter_lwm2m_bridge.Base.{
  ℤ, pos, negsuc, IsInt32, some, List, [], ◌∷◌, ◌≡◌, refl, arith, ok, All, ap, Bool, true, false,
  if◌then◌else◌,
}
use matter_lwm2m_bridge.Text.{Bytes, codes, Bytes_discrete}
use matter_lwm2m_bridge.Slashes.{extract_between_slashes}
use matter_lwm2m_bridge.Json.{Json, number_integer, object, Members, no_members, member}
use matter_lwm2m_bridge.BiMap.Load.{load}
use matter_lwm2m_bridge.Mapping.{
  MatterIpsoMapping, no_mapping, at_key, items, members_of, wrap_int32, get_to_int, key_of, Kind,
  sdf_thing, sdf_object, sdf_property, sdf_action, sdf_event, other, kind_of, insert_by_kind,
  add_ids, add_item, add_items, add_map, generate_matter_ipso_mapping,
}

-- An entry of a mapping file: the JSON pointer of an element, its Matter id and its LwM2M id.
pub record Entry : Type 0 where
  pub pointer : Bytes
  pub matter_id : ℤ
  pub oma_id : ℤ

abbrev pub encode_entry : Entry → Json
encode_entry e = object (
    member (codes "matter:id") (number_integer e.matter_id)
      (member (codes "oma:id") (number_integer e.oma_id) no_members))

abbrev pub encode_entries : List Entry → Members
encode_entries [] = no_members
encode_entries (e ∷ es) = member e.pointer (encode_entry e) (encode_entries es)

-- The file with these entries.
abbrev pub encode : List Entry → Json
encode es = object (member (codes "map") (object (encode_entries es)) no_members)

-- The kind of element that an entry is about.
abbrev pub entry_kind : Entry → Kind
entry_kind e = kind_of (extract_between_slashes e.pointer)

abbrev pub is_kind : Kind → Kind → Bool
is_kind sdf_object sdf_object = true
is_kind sdf_property sdf_property = true
is_kind sdf_action sdf_action = true
is_kind sdf_event sdf_event = true
is_kind _ _ = false

-- The pair in front, if its kind is the one that is wanted.
abbrev pub pair_of : Kind → Kind → ℤ × ℤ → List (ℤ × ℤ) → List (ℤ × ℤ)
pair_of wanted kind p ps = if is_kind wanted kind then p ∷ ps else ps

-- The pairs of ids of one kind of element, in the order of the file.
abbrev pub pairs_of : Kind → List Entry → List (ℤ × ℤ)
pairs_of kind [] = []
pairs_of kind (e ∷ es) = pair_of kind (entry_kind e) (e.matter_id, e.oma_id) (pairs_of kind es)

-- The four maps of `m` with the pairs of the file loaded into them.
abbrev pub load_entries : List Entry → MatterIpsoMapping → MatterIpsoMapping
load_entries es m = record {
  cluster_object_map = load (pairs_of sdf_object es) m.cluster_object_map;
  attribute_resource_map = load (pairs_of sdf_property es) m.attribute_resource_map;
  command_resource_map = load (pairs_of sdf_action es) m.command_resource_map;
  event_resource_map = load (pairs_of sdf_event es) m.event_resource_map;
}

abbrev pub FitsInt32 : Entry → Type 0
FitsInt32 e = IsInt32 e.matter_id × IsInt32 e.oma_id

wrap_int32_lem : (v : ℤ) → IsInt32 v → wrap_int32 v ≡ v
wrap_int32_lem (pos n) h = ground arith
wrap_int32_lem (negsuc n) h = ground arith

add_item-encode_entry :
    (e : Entry) (m : MatterIpsoMapping)
    → FitsInt32 e
    → add_item (some e.pointer, encode_entry e) m
      ≡ ok (insert_by_kind (entry_kind e) e.matter_id e.oma_id m)
unfolding add_item add_ids at_key get_to_int key_of Bytes_discrete
add_item-encode_entry e m (h, k) = rw (wrap_int32_lem e.matter_id h, wrap_int32_lem e.oma_id k)

load-insert_by_kind :
    (kind : Kind) (p : ℤ × ℤ) (os ps cs vs : List (ℤ × ℤ)) (m : MatterIpsoMapping)
    → ◌≡◌ {A = MatterIpsoMapping}
        (record {
          cluster_object_map = load os (insert_by_kind kind p.0 p.1 m).cluster_object_map;
          attribute_resource_map = load ps (insert_by_kind kind p.0 p.1 m).attribute_resource_map;
          command_resource_map = load cs (insert_by_kind kind p.0 p.1 m).command_resource_map;
          event_resource_map = load vs (insert_by_kind kind p.0 p.1 m).event_resource_map;
        })
        (record {
          cluster_object_map = load (pair_of sdf_object kind p os) m.cluster_object_map;
          attribute_resource_map = load (pair_of sdf_property kind p ps) m.attribute_resource_map;
          command_resource_map = load (pair_of sdf_action kind p cs) m.command_resource_map;
          event_resource_map = load (pair_of sdf_event kind p vs) m.event_resource_map;
        })
unfolding insert_by_kind
load-insert_by_kind sdf_thing p os ps cs vs m = refl
load-insert_by_kind sdf_object p os ps cs vs m = refl
load-insert_by_kind sdf_property p os ps cs vs m = refl
load-insert_by_kind sdf_action p os ps cs vs m = refl
load-insert_by_kind sdf_event p os ps cs vs m = refl
load-insert_by_kind other p os ps cs vs m = refl

add_items-encode_entries :
    (es : List Entry) (m : MatterIpsoMapping)
    → All FitsInt32 es
    → add_items (members_of (encode_entries es)) m ≡ ok (load_entries es m)
unfolding add_items
add_items-encode_entries [] m h = refl
add_items-encode_entries (e ∷ es) m (h, hs) =
    rw
      (
        add_item-encode_entry e m h,
        add_items-encode_entries es (insert_by_kind (entry_kind e) e.matter_id e.oma_id m) hs,
      )
      (ap ok (load-insert_by_kind (entry_kind e) (e.matter_id, e.oma_id) _ _ _ _ m))

-- From a file of entries whose ids are `int`s, `GenerateMatterIpsoMapping` returns, without throwing,
-- the four maps loaded in the order of the file with the pairs of their kind, and with no others.
pub generate_matter_ipso_mapping-encode :
    (es : List Entry)
    → All FitsInt32 es
    → generate_matter_ipso_mapping (encode es) ≡ ok (load_entries es no_mapping)
unfolding generate_matter_ipso_mapping add_map at_key items Bytes_discrete
generate_matter_ipso_mapping-encode es h = add_items-encode_entries es no_mapping h

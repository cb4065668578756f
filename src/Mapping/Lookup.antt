-- ===== src/Mapping/Lookup.antt =====
-- The maps that `GenerateMatterIpsoMapping` returns, whatever JSON it reads.
use matter_lwm2m_bridge.Base.{
  ℤ, Option, none, some, List, [], ◌∷◌, IfOk, IfOk-bind, IfOk-bind_second,
}
use matter_lwm2m_bridge.Text.{Bytes}
use matter_lwm2m_bridge.Slashes.{extract_between_slashes}
use matter_lwm2m_bridge.Json.{Json}
use matter_lwm2m_bridge.BiMap.Inverse.{IsInverse, insert-IsInverse, empty-IsInverse}
use matter_lwm2m_bridge.Mapping.{
  MatterIpsoMapping, no_mapping, items, get_to_int, key_of, Kind, sdf_thing, sdf_object,
  sdf_property, sdf_action, sdf_event, other, kind_of, insert_by_kind, add_ids, add_map, add_item,
  add_items, generate_matter_ipso_mapping,
}

-- Each of the four maps is inverse on both sides.
pub record IsConsistent (m : MatterIpsoMapping) : Type 0 where
  pub clusters : IsInverse m.cluster_object_map
  pub attributes : IsInverse m.attribute_resource_map
  pub commands : IsInverse m.command_resource_map
  pub events : IsInverse m.event_resource_map

no_mapping-IsConsistent : IsConsistent no_mapping
no_mapping-IsConsistent = record {
  clusters = empty-IsInverse;
  attributes = empty-IsInverse;
  commands = empty-IsInverse;
  events = empty-IsInverse;
}

insert_by_kind-IsConsistent :
    (kind : Kind) (matter_id oma_id : ℤ) (m : MatterIpsoMapping)
    → IsConsistent m
    → IsConsistent (insert_by_kind kind matter_id oma_id m)
unfolding insert_by_kind
insert_by_kind-IsConsistent sdf_object a b m h = record {
  clusters = insert-IsInverse a b m.cluster_object_map h.clusters;
  attributes = h.attributes;
  commands = h.commands;
  events = h.events;
}
insert_by_kind-IsConsistent sdf_property a b m h = record {
  clusters = h.clusters;
  attributes = insert-IsInverse a b m.attribute_resource_map h.attributes;
  commands = h.commands;
  events = h.events;
}
insert_by_kind-IsConsistent sdf_action a b m h = record {
  clusters = h.clusters;
  attributes = h.attributes;
  commands = insert-IsInverse a b m.command_resource_map h.commands;
  events = h.events;
}
insert_by_kind-IsConsistent sdf_event a b m h = record {
  clusters = h.clusters;
  attributes = h.attributes;
  commands = h.commands;
  events = insert-IsInverse a b m.event_resource_map h.events;
}
insert_by_kind-IsConsistent sdf_thing a b m h = h
insert_by_kind-IsConsistent other a b m h = h

add_ids-IsConsistent :
    (key : Option Bytes) (x y : Option Json) (m : MatterIpsoMapping)
    → IsConsistent m
    → IfOk IsConsistent (add_ids key x y m)
unfolding add_ids
add_ids-IsConsistent key none y m h = h
add_ids-IsConsistent key (some x) none m h = h
add_ids-IsConsistent key (some x) (some y) m h =
    IfOk-bind_second IsConsistent (get_to_int x) _ (λ a.
      IfOk-bind_second IsConsistent (get_to_int y) _ (λ b.
        IfOk-bind_second IsConsistent (key_of key) _
          (λ k. insert_by_kind-IsConsistent (kind_of (extract_between_slashes k)) a b m h)))

add_items-IsConsistent :
    (is : List (Option Bytes × Json)) (m : MatterIpsoMapping)
    → IsConsistent m
    → IfOk IsConsistent (add_items is m)
unfolding add_items add_item
add_items-IsConsistent [] m h = h
add_items-IsConsistent ((key, value) ∷ is) m h =
    IfOk-bind IsConsistent IsConsistent (add_item (key, value) m) (add_items is)
      (add_ids-IsConsistent key _ _ m h) (λ m'. add_items-IsConsistent is m')

add_map-IsConsistent :
    (o : Option Json) (m : MatterIpsoMapping) → IsConsistent m → IfOk IsConsistent (add_map o m)
unfolding add_map
add_map-IsConsistent none m h = h
add_map-IsConsistent (some entries) m h = add_items-IsConsistent (items entries) m h

-- Whatever JSON is read, each of the four maps that `GenerateMatterIpsoMapping` returns is inverse on
-- both sides: a Matter id leads to an LwM2M id exactly when that leads back to it.
pub generate_matter_ipso_mapping-IsConsistent :
    (json : Json) → IfOk IsConsistent (generate_matter_ipso_mapping json)
unfolding generate_matter_ipso_mapping
generate_matter_ipso_mapping-IsConsistent json =
    add_map-IsConsistent _ no_mapping no_mapping-IsConsistent

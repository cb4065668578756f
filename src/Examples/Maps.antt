-- ===== src/Examples/Maps.antt =====
-- The id maps of main/include/BridgeUtils.h and the mapping files of main/main.cpp.
use matter_lwm2m_bridge.Base.{ℕ, ◌≡◌, ◌≢◌, ℤ, pos, List, [], ◌∷◌, arith, ok, IfOk, HasSame-swap}
use matter_lwm2m_bridge.Text.{codes, Bytes_discrete, substr, substr_from}
use matter_lwm2m_bridge.Slashes.{extract_between_slashes, rfind_char, last_index_of}
use matter_lwm2m_bridge.BiMap.{BiMap, empty, insert}
use matter_lwm2m_bridge.BiMap.Inverse.{IsInverse, empty-IsInverse, insert-IsInverse}
use matter_lwm2m_bridge.BiMap.Pairs.{
  Use, inserting, asking_ipso, asking_matter, answers, pair_answers, answers-refines,
}
use matter_lwm2m_bridge.Mapping.{
  MatterIpsoMapping, sdf_thing, sdf_object, sdf_property, sdf_action, sdf_event, other, kind_of,
  generate_matter_ipso_mapping,
}
use matter_lwm2m_bridge.Mapping.Lookup.{IsConsistent, generate_matter_ipso_mapping-IsConsistent}
use matter_lwm2m_bridge.Mapping.Encoded.{Entry, encode}
use matter_lwm2m_bridge.Mapping.Listed.{Item}
use matter_lwm2m_bridge.Mapping.Unordered.{
  IsUnambiguous, HasSameLookups, generate_matter_ipso_mapping_unordered,
}

pos-ne : (a b : ℕ) → a ≢ b → pos a ≢ pos b
pos-ne a b n e = n cc

-- The On/Off cluster and the light control object.
abbrev one_pair : BiMap
one_pair = insert (pos 6) (pos 3311) empty

one_pair-IsInverse : IsInverse one_pair
one_pair-IsInverse = insert-IsInverse (pos 6) (pos 3311) empty empty-IsInverse

abbrev two_pairs : List (ℤ × ℤ)
two_pairs = (pos 6, pos 3311) ∷ (pos 8, pos 3312) ∷ []

abbrev pub two_entries : List Entry
two_entries =
    record { pointer = codes "#/sdfObject/OnOff"; matter_id = pos 6; oma_id = pos 3311 }
    ∷ record {
      pointer = codes "#/sdfObject/OnOff/sdfProperty/OnOff";
      matter_id = pos 0;
      oma_id = pos 5850;
    }
    ∷ []

generate_matter_ipso_mapping-IsConsistent_example :
    IfOk IsConsistent (generate_matter_ipso_mapping (encode two_entries))
generate_matter_ipso_mapping-IsConsistent_example =
    generate_matter_ipso_mapping-IsConsistent (encode two_entries)

abbrev dimmer : Entry
dimmer = record {
  pointer = codes "#/sdfObject/OnOff/sdfProperty/Level";
  matter_id = pos 1;
  oma_id = pos 5851;
}

abbrev switch : Entry
switch = record {
  pointer = codes "#/sdfObject/OnOff/sdfProperty/OnOff";
  matter_id = pos 0;
  oma_id = pos 5850;
}

dimmer_first-IsUnambiguous : IsUnambiguous (dimmer ∷ switch ∷ [])
unfolding kind_of extract_between_slashes rfind_char last_index_of substr substr_from Bytes_discrete
dimmer_first-IsUnambiguous sdf_property =
    (((pos-ne 0 1 (omega arith), pos-ne 5850 5851 (omega arith)), tt), (tt, tt))
dimmer_first-IsUnambiguous sdf_object = tt
dimmer_first-IsUnambiguous sdf_action = tt
dimmer_first-IsUnambiguous sdf_event = tt
dimmer_first-IsUnambiguous sdf_thing = tt
dimmer_first-IsUnambiguous other = tt

switch_first-IsUnambiguous : IsUnambiguous (switch ∷ dimmer ∷ [])
unfolding kind_of extract_between_slashes rfind_char last_index_of substr substr_from Bytes_discrete
switch_first-IsUnambiguous sdf_property =
    (((pos-ne 1 0 (omega arith), pos-ne 5851 5850 (omega arith)), tt), (tt, tt))
switch_first-IsUnambiguous sdf_object = tt
switch_first-IsUnambiguous sdf_action = tt
switch_first-IsUnambiguous sdf_event = tt
switch_first-IsUnambiguous sdf_thing = tt
switch_first-IsUnambiguous other = tt

generate_matter_ipso_mapping_unordered_example :
    (m : MatterIpsoMapping) × (n : MatterIpsoMapping) × (generate_matter_ipso_mapping
        (encode (dimmer ∷ switch ∷ []))
      ≡ ok m)
    × (generate_matter_ipso_mapping (encode (switch ∷ dimmer ∷ [])) ≡ ok n)
    × HasSameLookups m n
generate_matter_ipso_mapping_unordered_example =
    generate_matter_ipso_mapping_unordered (dimmer ∷ switch ∷ []) (switch ∷ dimmer ∷ [])
      (omega arith) (omega arith) dimmer_first-IsUnambiguous switch_first-IsUnambiguous
      (HasSame-swap dimmer switch [])

-- The second pair is refused, since its LwM2M id is taken.
abbrev some_uses : List Use
some_uses =
    inserting (pos 6) (pos 3311)
    ∷ inserting (pos 8) (pos 3311)
    ∷ asking_ipso (pos 6)
    ∷ asking_ipso (pos 8)
    ∷ asking_matter (pos 3311)
    ∷ []

answers-refines_example : answers some_uses empty ≡ pair_answers some_uses []
answers-refines_example = answers-refines some_uses

-- The cluster, its state and a command; the last pair is refused, since its LwM2M id is taken.
abbrev light_items : List Item
light_items =
    record {
      place = codes "#";
      kind = sdf_object;
      name = codes "OnOff";
      matter_id = pos 6;
      oma_id = pos 3311;
    }
    ∷ record {
      place = codes "#/sdfObject/OnOff";
      kind = sdf_action;
      name = codes "Toggle";
      matter_id = pos 2;
      oma_id = pos 5823;
    }
    ∷ record {
      place = codes "#/sdfObject/OnOff";
      kind = sdf_action;
      name = codes "On";
      matter_id = pos 1;
      oma_id = pos 5823;
    }
    ∷ []

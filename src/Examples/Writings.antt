-- ===== src/Examples/Writings.antt =====
-- A write behind the start of the program of main/main.cpp, with a small SDK.
use matter_lwm2m_bridge.Base.{ℕ, pos, ◌≡◌, refl, ◌∷◌, [], List, head, tail, arith}
use matter_lwm2m_bridge.Text.{codes, Bytes_discrete, substr, substr_from}
use matter_lwm2m_bridge.Slashes.{extract_between_slashes, rfind_char, last_index_of}
use matter_lwm2m_bridge.Mapping.{
  sdf_thing, sdf_object, sdf_property, sdf_action, sdf_event, other, kind_of,
}
use matter_lwm2m_bridge.Mapping.Encoded.{Entry}
use matter_lwm2m_bridge.Mapping.Unordered.{IsUnambiguous}
use matter_lwm2m_bridge.Server.Register.{resource_uri}
use matter_lwm2m_bridge.Program.Flow.{done}
use matter_lwm2m_bridge.Program.Deploy.{Bridge, init_server}
use matter_lwm2m_bridge.Program.Writing.{IsEntry, Writes, init_server-Writes}
use matter_lwm2m_bridge.Examples.Clients.{idle_client-IsIdle}
use matter_lwm2m_bridge.Examples.Maps.{two_entries}
use matter_lwm2m_bridge.Examples.Programs.{working, working-IsWorking, light_pairs, scheduled_start}
use matter_lwm2m_bridge.Examples.Servers.{light_types}

two_entries-IsUnambiguous : IsUnambiguous two_entries
unfolding kind_of extract_between_slashes rfind_char last_index_of substr substr_from Bytes_discrete
two_entries-IsUnambiguous sdf_object = (tt, tt)
two_entries-IsUnambiguous sdf_property = (tt, tt)
two_entries-IsUnambiguous sdf_action = tt
two_entries-IsUnambiguous sdf_event = tt
two_entries-IsUnambiguous sdf_thing = tt
two_entries-IsUnambiguous other = tt

abbrev on_off_entry : Entry
on_off_entry = record { pointer = codes "#/sdfObject/OnOff"; matter_id = pos 6; oma_id = pos 3311 }

abbrev state_entry : Entry
state_entry = record {
  pointer = codes "#/sdfObject/OnOff/sdfProperty/OnOff";
  matter_id = pos 0;
  oma_id = pos 5850;
}

on_off-IsEntry : IsEntry two_entries sdf_object 6 on_off_entry
unfolding kind_of extract_between_slashes rfind_char last_index_of substr substr_from Bytes_discrete
on_off-IsEntry = record {
  listed = head refl;
  has_kind = refl;
  small = omega arith;
  has_id = refl;
  has_oma_id = λ e. cc;
}

state-IsEntry : IsEntry two_entries sdf_property 0 state_entry
unfolding kind_of extract_between_slashes rfind_char last_index_of substr substr_from Bytes_discrete
state-IsEntry = record {
  listed = tail (head refl);
  has_kind = refl;
  small = omega arith;
  has_id = refl;
  has_oma_id = λ e. cc;
}

init_server-Writes_example :
    (b' : Bridge (List ℕ) ℕ (List ℕ)) × (init_server working scheduled_start ≡ done b')
    × Writes light_types working.lib
        (λ e. e)
        6
        0
        (resource_uri (pos 3311) (pos 5850))
        b'.matter_mapping
        b'.coap_mapping
        b'.custom.endpoints.g_devices
        10
        1
        1
        (1 ∷ [])
        (codes "on")
        b'.custom.client
init_server-Writes_example =
    init_server-Writes working two_entries light_pairs light_types (λ e. e) (codes "{}")
      scheduled_start 10 1 6 0 1 (1 ∷ []) (codes "on") on_off_entry state_entry working-IsWorking
      idle_client-IsIdle (omega arith) two_entries-IsUnambiguous on_off-IsEntry state-IsEntry

-- ===== src/Devices.antt =====
-- The virtual devices of main/Device.cpp and main/include/Device.h, and what main/main.cpp reports when
-- one changes.
pub mod Changes
pub mod Reports
use mathlib.Core.Logic.{ite}
use matter_lwm2m_bridge.Base.{
  ℕ, ◌/◌, ◌%◌, Bool, true, false, not, ◌&&◌, List, [], ◌∷◌, ◌++◌, take, ◌==◌, if◌then◌else◌,
}
use matter_lwm2m_bridge.Text.{Bytes, Bytes_discrete}

-- `kDeviceNameSize` and `kDeviceLocationSize`.
abbrev pub device_name_size : ℕ
device_name_size = 32

abbrev pub device_location_size : ℕ
device_location_size = 32

pub data State : Type 0 where
  state_on state_off : State

pub data Changed : Type 0 where
  changed_reachable changed_state changed_location changed_name : Changed

-- The value of the enumerator.
abbrev pub mask_of : Changed → ℕ
mask_of changed_reachable = 1
mask_of changed_state = 2
mask_of changed_location = 4
mask_of changed_name = 8

-- The text up to the terminating 0 stands for a character array; of the callback it is kept whether
-- there is one.
pub record Device : Type 0 where
  pub state : State
  pub reachable : Bool
  pub name : Bytes
  pub location : Bytes
  pub endpoint_id : ℕ
  pub changed_cb : Bool

abbrev pub same_state : State → State → Bool
same_state state_on state_on = true
same_state state_off state_off = true
same_state _ _ = false

abbrev pub same_bool : Bool → Bool → Bool
same_bool true b = b
same_bool false b = not b

-- `strncmp(s, t, n) != 0`, for texts without a 0.
abbrev pub strncmp_differs : Bytes → Bytes → ℕ → Bool
strncmp_differs s t n = ite (Bytes_discrete (take n s) (take n t)) false true

-- The setters return the device and the calls of the callback.
abbrev pub call_back : Bool → Changed → Device → Device × List Changed
call_back changed what d = (d, if changed && d.changed_cb then what ∷ [] else [])

unfoldable pub is_on : Device → Bool
is_on d = same_state d.state state_on

unfoldable pub is_reachable : Device → Bool
is_reachable d = d.reachable

unfoldable pub set_on_off : Bool → Device → Device × List Changed
set_on_off true d =
    call_back (not (same_state d.state state_on)) changed_state (record d { state = state_on })
set_on_off false d =
    call_back (not (same_state d.state state_off)) changed_state (record d { state = state_off })

unfoldable pub set_reachable : Bool → Device → Device × List Changed
set_reachable a_reachable d =
    call_back (not (same_bool d.reachable a_reachable)) changed_reachable
      (record d { reachable = a_reachable })

unfoldable pub set_change_callback : Device → Device
set_change_callback d = record d { changed_cb = true }

-- `CopyString` of the Matter SDK, given the size of the array.
module _ (copy_string : ℕ → Bytes → Bytes) where
  unfoldable pub new_device : Bytes → Bytes → Device
  new_device device_name device_location = record {
    state = state_off;
    reachable = false;
    name = copy_string device_name_size device_name;
    location = copy_string device_location_size device_location;
    endpoint_id = 0;
    changed_cb = false;
  }

  unfoldable pub set_name : Bytes → Device → Device × List Changed
  set_name device_name d =
      call_back (strncmp_differs d.name device_name device_name_size) changed_name
        (record d { name = copy_string device_name_size device_name })

  unfoldable pub set_location : Bytes → Device → Device × List Changed
  set_location device_location d =
      call_back (strncmp_differs d.location device_location device_location_size) changed_location
        (record d { location = copy_string device_location_size device_location })

-- The ids that the Matter SDK generates.
pub record ReportIds : Type 0 where
  pub bridged_device_basic_information : ℕ
  pub attribute_reachable : ℕ
  pub attribute_node_label : ℕ
  pub on_off_cluster : ℕ
  pub attribute_on_off : ℕ

-- A report that is scheduled: endpoint, cluster and attribute.
abbrev pub Report : Type 0
Report = ℕ × ℕ × ℕ

-- `mask & bit`, for a bit that is a power of two.
abbrev pub has_bit : ℕ → ℕ → Bool
has_bit mask bit = mask / bit % 2 == 1

module _ (ids : ReportIds) where
  unfoldable pub handle_device_status_changed : Device → ℕ → List Report
  handle_device_status_changed d mask =
      (if has_bit mask 1
        then (d.endpoint_id, ids.bridged_device_basic_information, ids.attribute_reachable) ∷ []
        else [])
      ++ (if has_bit mask 2
          then (d.endpoint_id, ids.on_off_cluster, ids.attribute_on_off) ∷ []
          else [])
      ++ (if has_bit mask 8
          then (d.endpoint_id, ids.bridged_device_basic_information, ids.attribute_node_label) ∷ []
          else [])

-- ===== src/Binding.antt =====
-- The binding handler of main/BindingHandler.cpp and main/include/BindingHandler.h.
pub mod Safety
pub mod Handling
pub mod Dispatch
pub mod Setup
use matter_lwm2m_bridge.Base.{
  ℕ, Bool, true, false, ◌&&◌, not, Option, none, some, List, [], ◌∷◌, ◌==◌, if◌then◌else◌, map,
}

-- `std::variant<uint16_t, bool>`
pub data Data : Type 0 where
  uint16 : ℕ → Data
  boolean : Bool → Data

pub record BindingCommandData : Type 0 where
  pub local_endpoint_id : ℕ
  pub command_id : ℕ
  pub attribute_id : ℕ
  pub cluster_id : ℕ
  pub content : Data
  pub read_attribute : Bool
  pub write_attribute : Bool
  pub is_group : Bool

-- `Platform::New<BindingCommandData>()`: the members without an initialiser are zeroed.
abbrev pub new_command_data : BindingCommandData
new_command_data = record {
  local_endpoint_id = 2;
  command_id = 0;
  attribute_id = 0;
  cluster_id = 0;
  content = uint16 0;
  read_attribute = false;
  write_attribute = false;
  is_group = false;
}

-- The ids of the On/Off cluster and of its commands, which the Matter SDK generates.
pub record OnOffIds : Type 0 where
  pub on_off : ℕ
  pub toggle : ℕ
  pub on : ℕ
  pub off : ℕ

pub data OnOffCommand : Type 0 where
  toggle_command on_command off_command : OnOffCommand

pub data BindingType : Type 0 where
  unused unicast multicast : BindingType

-- The device at the other end: none, one with no session, one with a session.
pub data Peer : Type 0 where
  no_peer not_ready ready : Peer

-- What is sent to a cluster of a bound device or group.
pub data Interaction : Type 0 where
  write_attribute : ℕ → ℕ → Data → Interaction
  read_uint16 : ℕ → ℕ → Interaction
  read_boolean : ℕ → ℕ → Interaction
  invoke : OnOffCommand → Interaction
  invoke_group : OnOffCommand → Interaction

-- What the handler does: nothing, an interaction, the end of the program at a failed check, or an
-- access through a null pointer.
pub data Reaction : Type 0 where
  nothing : Reaction
  sent : Interaction → Reaction
  died : Reaction
  null_access : Reaction

-- The program ends there.
abbrev pub is_fatal : Reaction → Bool
is_fatal died = true
is_fatal null_access = true
is_fatal _ = false

-- What has happened when the program ends, or at the end of the calls.
abbrev pub until_end : List Reaction → List Reaction
until_end [] = []
until_end (r ∷ rs) = r ∷ (if is_fatal r then [] else until_end rs)

-- No reaction has ended the program.
abbrev pub survives : List Reaction → Bool
survives [] = true
survives (r ∷ rs) = not (is_fatal r) && survives rs

-- `peer_device->GetSecureSession().Value()`, and the interaction that needs it.
abbrev pub with_session : Peer → Interaction → Reaction
with_session no_peer i = null_access
with_session not_ready i = died
with_session ready i = sent i

module _ (ids : OnOffIds) where
  -- The `switch` over the command; another command does nothing.
  unfoldable pub command_of : ℕ → Option OnOffCommand
  command_of command_id =
      if command_id == ids.toggle
      then some toggle_command
      else if command_id == ids.on
      then some on_command
      else if command_id == ids.off
      then some off_command
      else none

  unfoldable pub process_on_off_unicast_binding_command : ℕ → Reaction
  process_on_off_unicast_binding_command command_id = elim (command_of command_id) [
    | none ↦ nothing
    | some k ↦ sent (invoke k)
  ]

  unfoldable pub process_on_off_group_binding_command : ℕ → Reaction
  process_on_off_group_binding_command command_id = elim (command_of command_id) [
    | none ↦ nothing
    | some k ↦ sent (invoke_group k)
  ]

  unfoldable pub process_write_attribute : BindingCommandData → Peer → Reaction
  process_write_attribute d peer =
      with_session peer (write_attribute d.cluster_id d.attribute_id d.content)

  unfoldable pub process_read_attribute : BindingCommandData → Peer → Reaction
  process_read_attribute d peer = elim d.content [
    | uint16 _ ↦ with_session peer (read_uint16 d.cluster_id d.attribute_id)
    | boolean _ ↦ with_session peer (read_boolean d.cluster_id d.attribute_id)
  ]

  abbrev pub is_unicast : BindingType → Bool
  is_unicast unicast = true
  is_unicast _ = false

  abbrev pub is_multicast : BindingType → Bool
  is_multicast multicast = true
  is_multicast _ = false

  -- `VerifyOrDie(peer_device != nullptr && peer_device->ConnectionReady())`
  abbrev pub if_connected : Peer → Reaction → Reaction
  if_connected ready r = r
  if_connected _ r = died

  -- A write, a read, a command for one device, a command for a group, in this order of tests.
  unfoldable pub handle_data : BindingType → Peer → BindingCommandData → Reaction
  unfolding process_write_attribute process_read_attribute process_on_off_unicast_binding_command
      process_on_off_group_binding_command command_of
  handle_data type peer d =
      if d.write_attribute
      then process_write_attribute d peer
      else if d.read_attribute
      then process_read_attribute d peer
      else if is_unicast type && not d.is_group
      then (if d.cluster_id == ids.on_off
          then if_connected peer (process_on_off_unicast_binding_command d.command_id)
          else nothing)
      else if is_multicast type && d.is_group
      then (if d.cluster_id == ids.on_off
          then process_on_off_group_binding_command d.command_id
          else nothing)
      else nothing

  -- A null context is only reported.
  unfoldable pub state_changed_handler : BindingType → Peer → Option BindingCommandData → Reaction
  unfolding handle_data
  state_changed_handler type peer none = nothing
  state_changed_handler type peer (some d) = handle_data type peer d

  -- `NotifyBoundClusterChanged` of the binding manager calls the handler for each binding to a cluster
  -- of an endpoint: for a device with its session, and for a group without a device, a null pointer.
  unfoldable pub switch_worker_function :
      (ℕ → ℕ → List (BindingType × Peer)) → Option BindingCommandData → List Reaction
  unfolding state_changed_handler
  switch_worker_function bound none = []
  switch_worker_function bound (some d) =
      until_end
        (map (λ b. state_changed_handler b.0 b.1 (some d)) (bound d.local_endpoint_id d.cluster_id))

-- ===== src/Binding/Setup.antt =====
-- The set-up of the binding manager and the remaining workers of main/BindingHandler.cpp, with the work
-- that the program gives to the Matter thread.
use matter_lwm2m_bridge.Base.{
  ℕ, Bool, true, Option, none, some, List, [], ◌∷◌, ◌++◌, ◌==◌, if◌then◌else◌,
}
use matter_lwm2m_bridge.Devices.{Report}
use matter_lwm2m_bridge.Binding.{
  BindingCommandData, OnOffIds, BindingType, Peer, Reaction, switch_worker_function,
}

-- A call of `ScheduleWork`: the function, and what its argument points to.
pub data Work (Entry : Type 0) : Type 0 where
  init_server_work : Work Entry
  init_binding_handler_work : Work Entry
  switch_work : Option BindingCommandData → Work Entry
  binding_work : Option Entry → Work Entry
  reporting_work : Report → Work Entry

-- What is known of the Matter SDK's binding manager: whether it has been initialised and given its
-- two handlers, and its table.
pub record BindingManager (Bindings : Type 0) : Type 0 where
  pub initialised : Bool
  pub has_changed_handler : Bool
  pub has_release_handler : Bool
  pub bindings : Bindings

-- The numbers stand for the addresses of the data that is allocated.
abbrev delete : ℕ → List ℕ → List ℕ
delete a [] = []
delete a (b ∷ bs) = if b == a then bs else b ∷ delete a bs

-- A null context is only reported.
unfoldable pub context_release_handler : Option ℕ → List ℕ → List ℕ
context_release_handler none allocated = allocated
context_release_handler (some context) allocated = delete context allocated

unfoldable pub init_binding_handler_internal :
    {Bindings : Type 0} → BindingManager Bindings → BindingManager Bindings
init_binding_handler_internal m = record m {
  initialised = true;
  has_changed_handler = true;
  has_release_handler = true;
}

unfoldable pub init_binding_handler : {Entry : Type 0} → List (Work Entry) → List (Work Entry)
init_binding_handler works = works ++ (init_binding_handler_work ∷ [])

-- `add_binding_entry` is the SDK's. The entry is deleted behind it.
unfoldable pub binding_worker_function :
    {Entry Bindings : Type 0}
    → (Entry → Bindings → Bindings)
    → Option Entry
    → BindingManager Bindings
    → BindingManager Bindings
binding_worker_function add_binding_entry none m = m
binding_worker_function add_binding_entry (some entry) m = record m {
  bindings = add_binding_entry entry m.bindings;
}

-- The worker of a switch through the manager, which calls the handler that it was given, and refuses
-- the notification before it has been initialised.
unfoldable pub notify :
    {Bindings : Type 0}
    → OnOffIds
    → (Bindings → ℕ → ℕ → List (BindingType × Peer))
    → Option BindingCommandData
    → BindingManager Bindings
    → List Reaction
unfolding switch_worker_function
notify ids bound_in d m =
    if m.initialised then switch_worker_function ids (bound_in m.bindings) d else []

-- ===== src/Bridge/Placing.antt =====
-- What adding and removing a device leave in the table of devices, and that an endpoint id is found.
use mathlib.Core.Path.{subst}
use matter_lwm2m_bridge.Base.{
  ℕ, zero, suc, ◌≡◌, ◌≢◌, refl, sym, ap, ◌∙◌, if◌then◌else◌, none, some, [], ◌∷◌, ◌++◌, length,
  set-append, length-snoc, append_assoc, All, Bool, ==_of_eq, ==_of_ne, true, false,
}
use matter_lwm2m_bridge.Bridge.{Devices}
use matter_lwm2m_bridge.Bridge.Endpoints.{
  EmberAfStatus, status_success, duplicate_exists, other_status, no_error, internal, EndpointState,
  AddResult, returned, searching, try_endpoints, add_from, add_device_endpoint, remove_from,
  remove_device_endpoint,
}

-- The device in the first free slot, if there is one.
abbrev pub place : ℕ → Devices → Devices
place dev [] = []
place dev (none ∷ slots) = some dev ∷ slots
place dev (some d ∷ slots) = some d ∷ place dev slots

abbrev pub has_free : Devices → Bool
has_free [] = false
has_free (none ∷ slots) = true
has_free (some d ∷ slots) = has_free slots

-- The device is in none of the slots.
abbrev pub IsAbsent : ℕ → Devices → Type 0
IsAbsent dev = All (λ slot. slot ≢ some dev)

module _ {Table : Type 0} where
  -- The table of devices behind an addition that has returned.
  abbrev pub Leaves : Devices → AddResult Table → Type 0
  Leaves slots (returned v s) = s.g_devices ≡ slots
  Leaves slots searching = Unit

  Leaves-status :
      (slots : Devices) (status : EmberAfStatus) (x y z : AddResult Table)
      → Leaves slots x
      → Leaves slots y
      → Leaves slots z
      → Leaves slots (elim status [ status_success ↦ x | other_status ↦ y | duplicate_exists ↦ z ])
  Leaves-status slots status_success x y z hx hy hz = hx
  Leaves-status slots other_status x y z hx hy hz = hy
  Leaves-status slots duplicate_exists x y z hx hy hz = hz

module _ {Table : Type 0} (set_dynamic_endpoint : ℕ → ℕ → Table → EmberAfStatus × Table)
    (clear_dynamic_endpoint : ℕ → Table → Table) (first_dynamic_endpoint_id : ℕ) where
  abbrev try : ℕ → ℕ → ℕ → EndpointState Table → AddResult Table
  try = try_endpoints set_dynamic_endpoint clear_dynamic_endpoint first_dynamic_endpoint_id

  try_endpoints-Leaves :
      (fuel dev index : ℕ) (s : EndpointState Table) → Leaves s.g_devices (try fuel dev index s)
  unfolding try_endpoints
  try_endpoints-Leaves zero dev index s = tt
  try_endpoints-Leaves (suc fuel) dev index s =
      let (status, table) = set_dynamic_endpoint index s.g_current_endpoint_id s.table in
      Leaves-status s.g_devices status _ _ _ refl refl (try_endpoints-Leaves fuel dev index _)

  add_from-Leaves :
      (fuel dev index : ℕ) (front slots : Devices) (s : EndpointState Table)
      → length front ≡ index
      → s.g_devices ≡ front ++ slots
      → Leaves (front ++ place dev slots) (
          add_from set_dynamic_endpoint clear_dynamic_endpoint first_dynamic_endpoint_id fuel dev
            slots index s)
  unfolding add_from
  add_from-Leaves fuel dev index front [] s e h = h
  add_from-Leaves fuel dev index front (none ∷ slots) s e h =
      rw (sym (set-append front none (some dev) slots), e, sym h)
        (try_endpoints-Leaves fuel dev index _)
  add_from-Leaves fuel dev index front (some d ∷ slots) s e h =
      rw (sym (append_assoc front (some d ∷ []) (place dev slots))) (
        add_from-Leaves fuel dev (suc index) (front ++ some d ∷ []) slots s
          (length-snoc front (some d) ∙ ap suc e)
          (h ∙ sym (append_assoc front (some d ∷ []) slots)))

  -- When `AddDeviceEndpoint` returns, the device stands in the first free slot and the other slots are
  -- as they were, whatever the SDK answered; a full table stays as it was.
  pub add_device_endpoint-Leaves :
      (fuel dev : ℕ) (s : EndpointState Table)
      → Leaves (place dev s.g_devices) (
          add_device_endpoint set_dynamic_endpoint clear_dynamic_endpoint first_dynamic_endpoint_id
            fuel dev s)
  unfolding add_device_endpoint
  add_device_endpoint-Leaves fuel dev s = add_from-Leaves fuel dev 0 [] s.g_devices s refl refl

  remove_from-place :
      (dev index : ℕ) (front slots : Devices) (s : EndpointState Table)
      → length front ≡ index
      → s.g_devices ≡ front ++ place dev slots
      → IsAbsent dev slots
      → let (error, s') =
          remove_from set_dynamic_endpoint clear_dynamic_endpoint first_dynamic_endpoint_id dev
            (place dev slots)
            index
            s in
        (error ≡ (if has_free slots then no_error else internal)) × (s'.g_devices ≡ front ++ slots)
  unfolding remove_from
  remove_from-place dev index front [] s e h k = (refl, h)
  remove_from-place dev index front (none ∷ slots) s e h k =
      rw (==_of_eq dev dev refl) (refl, rw (h, sym e) (set-append front (some dev) none slots))
  remove_from-place dev index front (some d ∷ slots) s e h (n, k) =
      rw (==_of_ne d dev (λ q. n (ap some q))) (
        rw (sym (append_assoc front (some d ∷ []) slots)) (
          remove_from-place dev (suc index) (front ++ some d ∷ []) slots s
            (length-snoc front (some d) ∙ ap suc e)
            (h ∙ sym (append_assoc front (some d ∷ []) (place dev slots))) k))

  -- Removing a device takes back what adding it did to the table of devices: from the table that an
  -- addition of an absent device leaves, the removal restores the table from before, with no error if
  -- there was a free slot and an internal error if not.
  pub remove_device_endpoint-place :
      (dev : ℕ) (slots : Devices) (s : EndpointState Table)
      → s.g_devices ≡ place dev slots
      → IsAbsent dev slots
      → let (error, s') =
          remove_device_endpoint set_dynamic_endpoint clear_dynamic_endpoint
            first_dynamic_endpoint_id dev s in
        (error ≡ (if has_free slots then no_error else internal)) × (s'.g_devices ≡ slots)
  unfolding remove_device_endpoint
  remove_device_endpoint-place dev slots s h k =
      let removed =
        remove_from set_dynamic_endpoint clear_dynamic_endpoint first_dynamic_endpoint_id dev in
      subst
        (λ xs.
          ((removed xs 0 s).0 ≡ (if has_free slots then no_error else internal))
          × ((removed xs 0 s).1.g_devices ≡ slots))
        (sym h) (remove_from-place dev 0 [] slots s refl h k)

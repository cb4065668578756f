-- ===== src/Bridge/Endpoints.antt =====
-- `AddDeviceEndpoint` and `RemoveDeviceEndpoint` of main/main.cpp: the table of bridged devices and the
-- endpoint ids that are tried for them.
use matter_lwm2m_bridge.Base.{
  ℕ, zero, suc, ◌+◌, ◌%◌, ◌^◌, ◌==◌, ltb, if◌then◌else◌, ℤ, pos, minus_one, none, some, List, [],
  ◌∷◌, set, put, ℕ_discrete,
}
use matter_lwm2m_bridge.Bridge.{Devices}

-- The statuses of `emberAfSetDynamicEndpoint` that the code tells apart.
pub data EmberAfStatus : Type 0 where
  status_success duplicate_exists other_status : EmberAfStatus

-- `CHIP_NO_ERROR` and `CHIP_ERROR_INTERNAL`.
pub data ChipError : Type 0 where
  no_error internal : ChipError

-- The globals `gDevices` and `gCurrentEndpointId`, the endpoint ids that the devices were given, and
-- the SDK's table of endpoints.
pub record EndpointState (Table : Type 0) : Type 0 where
  pub g_devices : Devices
  pub g_current_endpoint_id : ℕ
  pub endpoint_ids : List (ℕ × ℕ)
  pub table : Table

-- What `AddDeviceEndpoint` returns; `searching` where the fuel has run out in the search for an id.
pub data AddResult (Table : Type 0) : Type 0 where
  returned : ℤ → EndpointState Table → AddResult Table
  searching : AddResult Table

-- An endpoint id has 16 bits.
abbrev pub endpoint_mod : ℕ
endpoint_mod = 2 ^ 16

-- The functions of the SDK that set and clear an endpoint, by its index in the table, and the first id
-- for a dynamic endpoint.
module _ {Table : Type 0} (set_dynamic_endpoint : ℕ → ℕ → Table → EmberAfStatus × Table)
    (clear_dynamic_endpoint : ℕ → Table → Table) (first_dynamic_endpoint_id : ℕ) where
  -- `if (++gCurrentEndpointId < gFirstDynamicEndpointId)`
  abbrev pub next_endpoint_id : ℕ → ℕ
  next_endpoint_id id =
      let next = (id + 1) % endpoint_mod in
      if ltb next first_dynamic_endpoint_id then first_dynamic_endpoint_id else next

  -- The inner loop, at the slot `index`.
  unfoldable pub try_endpoints : ℕ → ℕ → ℕ → EndpointState Table → AddResult Table
  try_endpoints zero dev index s = searching
  try_endpoints (suc fuel) dev index s =
      let id = s.g_current_endpoint_id in
      let ids = put ℕ_discrete dev id s.endpoint_ids in
      let (status, table) = set_dynamic_endpoint index id s.table in
      elim status [
        | status_success ↦ returned (pos index) (record s { endpoint_ids = ids; table = table })
        | other_status ↦ returned minus_one (record s { endpoint_ids = ids; table = table })
        | duplicate_exists ↦ try_endpoints fuel dev index (record s {
          g_current_endpoint_id = next_endpoint_id id;
          endpoint_ids = ids;
          table = table;
        })
      ]

  -- The outer loop, from the slot `index` on.
  unfoldable pub add_from : ℕ → ℕ → Devices → ℕ → EndpointState Table → AddResult Table
  add_from fuel dev [] index s = returned minus_one s
  add_from fuel dev (none ∷ slots) index s =
      try_endpoints fuel dev index (record s { g_devices = set s.g_devices index (some dev) })
  add_from fuel dev (some _ ∷ slots) index s = add_from fuel dev slots (suc index) s

  unfoldable pub add_device_endpoint : ℕ → ℕ → EndpointState Table → AddResult Table
  add_device_endpoint fuel dev s = add_from fuel dev s.g_devices 0 s

  unfoldable pub remove_from :
      ℕ → Devices → ℕ → EndpointState Table → ChipError × EndpointState Table
  remove_from dev [] index s = (internal, s)
  remove_from dev (none ∷ slots) index s = remove_from dev slots (suc index) s
  remove_from dev (some d ∷ slots) index s =
      let rest = remove_from dev slots (suc index) s in
      if d == dev
      then (
        no_error,
        record s {
          g_devices = set s.g_devices index none;
          table = clear_dynamic_endpoint index s.table;
        },
      )
      else rest

  unfoldable pub remove_device_endpoint : ℕ → EndpointState Table → ChipError × EndpointState Table
  remove_device_endpoint dev s = remove_from dev s.g_devices 0 s

-- ===== src/Bridge/Searching.antt =====
-- The search of `AddDeviceEndpoint` for an endpoint id ends.
use matter_lwm2m_bridge.Base.{
  ℕ, zero, suc, ◌+◌, ◌-◌, ◌≤◌, ◌<◌, ◌≡◌, ◌≢◌, refl, ◌∙◌, none, some, [], ◌∷◌, arith, dec_lt,
}
use matter_lwm2m_bridge.Bridge.{Devices}
use matter_lwm2m_bridge.Bridge.Endpoints.{
  EmberAfStatus, status_success, duplicate_exists, other_status, EndpointState, AddResult,
  searching, endpoint_mod, next_endpoint_id, try_endpoints, add_from, add_device_endpoint,
}

searching-status :
    {Table : Type 0} (status : EmberAfStatus) (x y z : AddResult Table)
    → x ≢ searching
    → y ≢ searching
    → (status ≡ duplicate_exists → z ≢ searching)
    → (elim status [ status_success ↦ x | other_status ↦ y | duplicate_exists ↦ z ]) ≢ searching
searching-status status_success x y z hx hy hz = hx
searching-status other_status x y z hx hy hz = hy
searching-status duplicate_exists x y z hx hy hz = hz refl

module _ {Table : Type 0} (set_dynamic_endpoint : ℕ → ℕ → Table → EmberAfStatus × Table)
    (clear_dynamic_endpoint : ℕ → Table → Table) (first : ℕ) where
  abbrev next : ℕ → ℕ
  next = next_endpoint_id set_dynamic_endpoint clear_dynamic_endpoint first

  -- The id after `k` ids were refused.
  abbrev tried : ℕ → ℕ → ℕ
  tried zero id = id
  tried (suc k) id = tried k (next id)

  tried-rises : (k id : ℕ) → first ≤ id → id + k < endpoint_mod → tried k id ≡ id + k
  tried-rises zero id h l = omega arith
  tried-rises (suc k) id h l = tried-rises k (next id) (ground arith) (ground arith) ∙ ground arith

  tried-wraps :
      (k id : ℕ)
      → first ≤ id
      → id + suc k ≡ endpoint_mod
      → first < endpoint_mod
      → tried (suc k) id ≡ first
  tried-wraps zero id h l f = ground arith
  tried-wraps (suc k) id h l f = tried-wraps k (next id) (ground arith) (ground arith) f

  tried_sum : (j k id : ℕ) → tried (j + k) id ≡ tried k (tried j id)
  tried_sum zero k id = let e : 0 + k ≡ k = omega arith in rw e refl
  tried_sum (suc j) k id =
      let e : suc j + k ≡ suc (j + k) = omega arith in rw e (tried_sum j k (next id))

  -- A refused id leaves the table of the SDK as it was.
  abbrev pub KeepsTable : Type 0
  KeepsTable =
      (index id : ℕ) (table : Table)
      → (set_dynamic_endpoint index id table).0 ≡ duplicate_exists
      → (set_dynamic_endpoint index id table).1 ≡ table

  try_endpoints-returns :
      (k fuel dev index : ℕ) (s : EndpointState Table)
      → KeepsTable
      → k < fuel
      → (set_dynamic_endpoint index (tried k s.g_current_endpoint_id) s.table).0 ≢ duplicate_exists
      → try_endpoints set_dynamic_endpoint clear_dynamic_endpoint first fuel dev index s ≢ searching
  unfolding try_endpoints
  try_endpoints-returns k zero dev index s keep l n = elim l [ ]
  try_endpoints-returns zero (suc fuel) dev index s keep l n =
      searching-status _ _ _ _ (λ e. cc) (λ e. cc) (λ e. absurd (n e))
  try_endpoints-returns (suc k) (suc fuel) dev index s keep l n =
      searching-status _ _ _ _ (λ e. cc) (λ e. cc)
        (λ e.
          let same = keep index s.g_current_endpoint_id s.table e in
          try_endpoints-returns k fuel dev index _ keep (omega arith) (rw same n))

  -- Every id of the range is tried within 2 ^ 16 rounds.
  tried-reaches :
      (id target : ℕ)
      → first ≤ id
      → id < endpoint_mod
      → first ≤ target
      → target < endpoint_mod
      → (k : ℕ) × (k < endpoint_mod) × (tried k id ≡ target)
  tried-reaches id target h l h' l' = elim (dec_lt target id) [
    | no n ↦ (target - id, omega arith, tried-rises (target - id) id h (omega arith) ∙ omega arith)
    | yes y ↦
        let back = endpoint_mod - id in
        let e : back ≡ suc (back - 1) = omega arith in
        let wrapped : tried back id ≡ first =
          rw e (tried-wraps (back - 1) id h (omega arith) (omega arith)) in
        (
          back + (target - first),
          omega arith,
          tried_sum back (target - first) id
              ∙ rw wrapped
                  (tried-rises (target - first) first (omega arith) (omega arith) ∙ omega arith),
        )
  ]

  add_from-returns :
      (fuel dev index : ℕ) (slots : Devices) (s : EndpointState Table) (target : ℕ)
      → KeepsTable
      → endpoint_mod ≤ fuel
      → first ≤ s.g_current_endpoint_id
      → s.g_current_endpoint_id < endpoint_mod
      → first ≤ target
      → target < endpoint_mod
      → ((i : ℕ) → (set_dynamic_endpoint i target s.table).0 ≢ duplicate_exists)
      → add_from set_dynamic_endpoint clear_dynamic_endpoint first fuel dev slots index s
        ≢ searching
  unfolding add_from
  add_from-returns fuel dev index [] s target keep big h l h' l' n = λ e. cc
  add_from-returns fuel dev index (none ∷ slots) s target keep big h l h' l' n =
      let (k, small, e) = tried-reaches s.g_current_endpoint_id target h l h' l' in
      try_endpoints-returns k fuel dev index _ keep (omega arith) (rw e (n index))
  add_from-returns fuel dev index (some d ∷ slots) s target keep big h l h' l' n =
      add_from-returns fuel dev (suc index) slots s target keep big h l h' l' n

  -- If one id of the dynamic range is not in use for any slot, and an id that is in use is refused
  -- without a change, then 2 ^ 16 rounds are enough for `AddDeviceEndpoint` to return.
  pub add_device_endpoint-returns :
      (fuel dev : ℕ) (s : EndpointState Table) (target : ℕ)
      → KeepsTable
      → endpoint_mod ≤ fuel
      → first ≤ s.g_current_endpoint_id
      → s.g_current_endpoint_id < endpoint_mod
      → first ≤ target
      → target < endpoint_mod
      → ((i : ℕ) → (set_dynamic_endpoint i target s.table).0 ≢ duplicate_exists)
      → add_device_endpoint set_dynamic_endpoint clear_dynamic_endpoint first fuel dev s ≢ searching
  unfolding add_device_endpoint
  add_device_endpoint-returns fuel dev s = add_from-returns fuel dev 0 s.g_devices s

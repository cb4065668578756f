-- ===== src/BiMap/Inverse.antt =====
-- The two maps of a `BiMap` are inverse to one another, whatever is inserted.
use matter_lwm2m_bridge.Base.{
  ℤ, ℤ_discrete, minus_one, true, false, some, find, ◌≡◌, ◌≢◌, ◌↔◌, find-put, arith, Option-cases,
  inl, inr, ◌⊎◌,
}
use matter_lwm2m_bridge.BiMap.{BiMap, empty, has, insert, get_ipso_id, get_matter_id}

-- A Matter id leads to an LwM2M id exactly when that leads back to it.
abbrev pub IsInverse : BiMap → Type 0
IsInverse b =
    (m i : ℤ) → (find ℤ_discrete m b.left_map ≡ some i) ↔ (find ℤ_discrete i b.right_map ≡ some m)

pub empty-IsInverse : IsInverse empty
unfolding find
empty-IsInverse m i = ((λ e. cc), (λ e. cc))

-- Inserting into a `BiMap` keeps its two maps inverse, whether the pair is taken or refused.
pub insert-IsInverse :
    (matter_id ipso_id : ℤ) (b : BiMap) → IsInverse b → IsInverse (insert matter_id ipso_id b)
unfolding insert
insert-IsInverse matter_id ipso_id b h m i = ground (
  arith,
  h m i,
  h m ipso_id,
  h matter_id i,
  find-put ℤ_discrete matter_id m ipso_id b.left_map,
  find-put ℤ_discrete ipso_id i matter_id b.right_map,
)

-- The lookups after an insertion: a pair of which no id is taken is found from both sides and all
-- other ids lead where they led; a pair of which one id is taken changes no lookup.
pub get-insert :
    (matter_id ipso_id m i : ℤ) (b : BiMap)
    → ((has matter_id b.left_map ≡ false)
        → (has ipso_id b.right_map ≡ false)
        → (get_ipso_id matter_id (insert matter_id ipso_id b) ≡ ipso_id)
          × (get_matter_id ipso_id (insert matter_id ipso_id b) ≡ matter_id)
          × (m ≢ matter_id → get_ipso_id m (insert matter_id ipso_id b) ≡ get_ipso_id m b)
          × (i ≢ ipso_id → get_matter_id i (insert matter_id ipso_id b) ≡ get_matter_id i b))
      × ((has matter_id b.left_map ≡ true) ⊎ (has ipso_id b.right_map ≡ true)
          → insert matter_id ipso_id b ≡ b)
unfolding insert get_ipso_id get_matter_id
get-insert matter_id ipso_id m i b = (
  (λ l r. (
    ground (arith, find-put ℤ_discrete matter_id matter_id ipso_id b.left_map),
    ground (arith, find-put ℤ_discrete ipso_id ipso_id matter_id b.right_map),
    (λ n. ground (arith, find-put ℤ_discrete matter_id m ipso_id b.left_map)),
    (λ n. ground (arith, find-put ℤ_discrete ipso_id i matter_id b.right_map)),
  )),
  (λ t. ground arith),
)

-- A Matter id that leads to an LwM2M id other than -1 is found again from that id.
pub get_matter_id-get_ipso_id :
    (b : BiMap) (matter_id : ℤ)
    → IsInverse b
    → get_ipso_id matter_id b ≢ minus_one
    → get_matter_id (get_ipso_id matter_id b) b ≡ matter_id
unfolding get_ipso_id get_matter_id
get_matter_id-get_ipso_id b matter_id h n =
    elim (Option-cases (find ℤ_discrete matter_id b.left_map)) [
      | inl e ↦ absurd (n (rw e))
      | inr (i, e) ↦ rw (e, (h matter_id i).0 e)
    ]

-- With maps that are inverse, an LwM2M id whose Matter id is found (not -1) is the one that this Matter
-- id leads back to.
pub get_ipso_id-get_matter_id :
    (b : BiMap) (ipso_id : ℤ)
    → IsInverse b
    → get_matter_id ipso_id b ≢ minus_one
    → get_ipso_id (get_matter_id ipso_id b) b ≡ ipso_id
unfolding get_ipso_id get_matter_id
get_ipso_id-get_matter_id b ipso_id h n =
    elim (Option-cases (find ℤ_discrete ipso_id b.right_map)) [
      | inl e ↦ absurd (n (rw e))
      | inr (m, e) ↦ rw (e, (h m ipso_id).1 e)
    ]

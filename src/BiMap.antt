-- ===== src/BiMap.antt =====
-- `BiMap` of main/include/BridgeUtils.h: Matter ids on the left, LwM2M ids on the right.
pub mod Inverse
pub mod Load
pub mod Pairs
pub mod Unordered
use matter_lwm2m_bridge.Base.{
  ℤ, ℤ_discrete, minus_one, Bool, true, false, ◌||◌, List, [], ◌∷◌, Option, none, some, find, put,
  if◌then◌else◌, ◌≡◌, refl, pos,
}

pub record BiMap : Type 0 where
  pub left_map : List (ℤ × ℤ)
  pub right_map : List (ℤ × ℤ)

abbrev pub empty : BiMap
empty = record { left_map = []; right_map = [] }

-- `map.find(key) != map.end()`
abbrev pub has : ℤ → List (ℤ × ℤ) → Bool
has k m = elim (find ℤ_discrete k m) [ some _ ↦ true | none ↦ false ]

-- A pair of which one id is taken already is refused, and nothing changes.
unfoldable pub insert : ℤ → ℤ → BiMap → BiMap
insert matter_id ipso_id b =
    if has matter_id b.left_map || has ipso_id b.right_map then b else record {
      left_map = put ℤ_discrete matter_id ipso_id b.left_map;
      right_map = put ℤ_discrete ipso_id matter_id b.right_map;
    }

-- The id found, or -1.
abbrev pub found_or_minus_one : Option ℤ → ℤ
found_or_minus_one (some v) = v
found_or_minus_one none = minus_one

unfoldable pub get_ipso_id : ℤ → BiMap → ℤ
get_ipso_id matter_id b = found_or_minus_one (find ℤ_discrete matter_id b.left_map)

unfoldable pub get_matter_id : ℤ → BiMap → ℤ
get_matter_id ipso_id b = found_or_minus_one (find ℤ_discrete ipso_id b.right_map)

test_lookup :
    let b = insert (pos 1) (pos 8) (insert (pos 1) (pos 9) (insert (pos 2) (pos 7) empty)) in
    (get_ipso_id (pos 1) b ≡ pos 9)
    × (get_matter_id (pos 7) b ≡ pos 2)
    × (get_matter_id (pos 8) b ≡ minus_one)
unfolding insert get_ipso_id get_matter_id find put ℤ_discrete
test_lookup = (refl, refl, refl)

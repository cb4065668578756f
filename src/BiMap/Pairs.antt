-- ===== src/BiMap/Pairs.antt =====
-- What `BiMap` of main/include/BridgeUtils.h promises: one list of pairs that is searched from both
-- sides.
use matter_lwm2m_bridge.Base.{
  ℤ, ℤ_discrete, ◌||◌, List, [], ◌∷◌, find, map, if◌then◌else◌, ◌≡◌, refl, find-put, arith,
}
use matter_lwm2m_bridge.BiMap.{
  BiMap, empty, has, found_or_minus_one, insert, get_ipso_id, get_matter_id,
}

-- The pairs, each with its ids exchanged.
abbrev pub turned : List (ℤ × ℤ) → List (ℤ × ℤ)
turned ps = map (λ p. (p.1, p.0)) ps

-- A pair is added unless one of its ids stands in the list.
abbrev pub add_pair : ℤ → ℤ → List (ℤ × ℤ) → List (ℤ × ℤ)
add_pair m i ps = if has m ps || has i (turned ps) then ps else (m, i) ∷ ps

-- What is done with a `BiMap`.
pub data Use : Type 0 where
  inserting : ℤ → ℤ → Use
  asking_ipso : ℤ → Use
  asking_matter : ℤ → Use

-- The answers of a `BiMap`, and those of the list of pairs.
abbrev pub answers : List Use → BiMap → List ℤ
answers [] b = []
answers (inserting m i ∷ us) b = answers us (insert m i b)
answers (asking_ipso m ∷ us) b = get_ipso_id m b ∷ answers us b
answers (asking_matter i ∷ us) b = get_matter_id i b ∷ answers us b

abbrev pub pair_answers : List Use → List (ℤ × ℤ) → List ℤ
pair_answers [] ps = []
pair_answers (inserting m i ∷ us) ps = pair_answers us (add_pair m i ps)
pair_answers (asking_ipso m ∷ us) ps =
    found_or_minus_one (find ℤ_discrete m ps) ∷ pair_answers us ps
pair_answers (asking_matter i ∷ us) ps =
    found_or_minus_one (find ℤ_discrete i (turned ps)) ∷ pair_answers us ps

-- The two maps find what the list has on either side.
abbrev pub Represents : BiMap → List (ℤ × ℤ) → Type 0
Represents b ps =
    (id : ℤ)
    → (find ℤ_discrete id b.left_map ≡ find ℤ_discrete id ps)
      × (find ℤ_discrete id b.right_map ≡ find ℤ_discrete id (turned ps))

pub insert-Represents :
    (m i : ℤ) (b : BiMap) (ps : List (ℤ × ℤ))
    → Represents b ps
    → Represents (insert m i b) (add_pair m i ps)
unfolding insert find
insert-Represents m i b ps h id = ground (
  arith,
  h id,
  h m,
  h i,
  find-put ℤ_discrete m id i b.left_map,
  find-put ℤ_discrete i id m b.right_map,
)

answers-from :
    (us : List Use) (b : BiMap) (ps : List (ℤ × ℤ))
    → Represents b ps
    → answers us b ≡ pair_answers us ps
unfolding get_ipso_id get_matter_id
answers-from [] b ps h = refl
answers-from (inserting m i ∷ us) b ps h =
    answers-from us (insert m i b) (add_pair m i ps) (insert-Represents m i b ps h)
answers-from (asking_ipso m ∷ us) b ps h = rw ((h m).0, answers-from us b ps h) refl
answers-from (asking_matter i ∷ us) b ps h = rw ((h i).1, answers-from us b ps h) refl

-- Whatever pairs are inserted and whatever is asked, in any order, a `BiMap` that starts empty gives
-- the answers of one list of pairs, to which a pair is added unless one of its ids stands in it, and
-- in which an id is looked for on its side, with -1 for an id that is not there.
pub answers-refines : (us : List Use) → answers us empty ≡ pair_answers us []
answers-refines us = answers-from us empty [] (λ id. (refl, refl))

-- ===== src/BiMap/Unordered.antt =====
-- A one-to-one mapping as a set of pairs: the order in which it is loaded does not matter.
use matter_lwm2m_bridge.Base.{
  ℤ, ℤ_discrete, List, [], ◌∷◌, Option, none, some, find, ◌≡◌, ◌↔◌, ◌⊎◌, inl, inr, refl, sym,
  find-put, arith, Memᴰ, head, tail, HasSame, All-Memᴰ,
}
use matter_lwm2m_bridge.BiMap.{BiMap, empty, insert, get_ipso_id, get_matter_id}
use matter_lwm2m_bridge.BiMap.Inverse.{empty-IsInverse}
use matter_lwm2m_bridge.BiMap.Load.{load, load-IsInverse, IsOneToOne, Finds, load-Finds}

-- What an insertion makes findable is the pair inserted.
insert-found :
    (m' i' m i : ℤ) (b : BiMap)
    → find ℤ_discrete m (insert m' i' b).left_map ≡ some i
    → ((m ≡ m') × (i ≡ i')) ⊎ (find ℤ_discrete m b.left_map ≡ some i)
unfolding insert
insert-found m' i' m i b e = ground (arith, find-put ℤ_discrete m' m i' b.left_map)

load-found :
    (ps : List (ℤ × ℤ)) (b : BiMap) (m i : ℤ)
    → find ℤ_discrete m (load ps b).left_map ≡ some i
    → Memᴰ (m, i) ps ⊎ (find ℤ_discrete m b.left_map ≡ some i)
load-found [] b m i e = inr e
load-found ((m', i') ∷ ps) b m i e = elim (load-found ps (insert m' i' b) m i e) [
  | inl h ↦ inl (tail h)
  | inr h ↦ elim (insert-found m' i' m i b h) [
    | inl (p, q) ↦ inl (head (rw (p, q) refl))
    | inr k ↦ inr k
  ]
]

empty-finds_nothing : (m i : ℤ) → find ℤ_discrete m empty.left_map ≡ some i → ⊥
unfolding find
empty-finds_nothing m i e = cc

-- What is found in the loaded map is what stands in the list.
load-Memᴰ :
    (ps : List (ℤ × ℤ)) (m i : ℤ)
    → IsOneToOne ps
    → (find ℤ_discrete m (load ps empty).left_map ≡ some i) ↔ Memᴰ (m, i) ps
load-Memᴰ ps m i o = (
  (λ e. elim (load-found ps empty m i e) [
    | inl h ↦ h
    | inr k ↦ absurd (empty-finds_nothing m i k)
  ]),
  (λ h. (All-Memᴰ (Finds (load ps empty)) ps (load-Finds ps o) h).0),
)

some_ext : (x y : Option ℤ) → ((i : ℤ) → (x ≡ some i) ↔ (y ≡ some i)) → x ≡ y
some_ext none none h = refl
some_ext none (some j) h = (h j).1 refl
some_ext (some i) y h = sym ((h i).0 refl)

-- The same lookups, from both sides.
abbrev pub IsAlike : BiMap → BiMap → Type 0
IsAlike b c =
    (id : ℤ) → (get_ipso_id id b ≡ get_ipso_id id c) × (get_matter_id id b ≡ get_matter_id id c)

-- Two lists of pairs that are one to one and have the same pairs, in whatever order, load the same
-- lookups.
pub load-IsAlike :
    (ps qs : List (ℤ × ℤ))
    → IsOneToOne ps
    → IsOneToOne qs
    → HasSame ps qs
    → IsAlike (load ps empty) (load qs empty)
unfolding get_ipso_id get_matter_id
load-IsAlike ps qs o p same id =
    let lefts : (m i : ℤ)
        → (find ℤ_discrete m (load ps empty).left_map ≡ some i)
          ↔ (find ℤ_discrete m (load qs empty).left_map ≡ some i) =
      λ m i. (
        (λ e. (load-Memᴰ qs m i p).1 ((same (m, i)).0 ((load-Memᴰ ps m i o).0 e))),
        (λ e. (load-Memᴰ ps m i o).1 ((same (m, i)).1 ((load-Memᴰ qs m i p).0 e))),
      ) in
    let from = load-IsInverse ps empty empty-IsInverse in
    let to = load-IsInverse qs empty empty-IsInverse in
    (
      rw (some_ext _ _ (lefts id)) refl,
      rw
          (some_ext _ _ (λ m. (
            (λ e. (to m id).0 ((lefts m id).0 ((from m id).1 e))),
            (λ e. (from m id).0 ((lefts m id).1 ((to m id).1 e))),
          )))
          refl,
    )

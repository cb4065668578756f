-- ===== src/BiMap/Load.antt =====
-- A `BiMap` filled with a list of pairs, as the loop over a mapping fills it.
use matter_lwm2m_bridge.Base.{
  ℤ, ℤ_discrete, false, List, [], ◌∷◌, some, find, ◌≡◌, ◌≢◌, refl, find-put, arith, All, All-map,
}
use matter_lwm2m_bridge.BiMap.{BiMap, empty, has, insert, get_ipso_id, get_matter_id}
use matter_lwm2m_bridge.BiMap.Inverse.{IsInverse, insert-IsInverse}

-- The pairs are inserted in order.
abbrev pub load : List (ℤ × ℤ) → BiMap → BiMap
load [] b = b
load ((m, i) ∷ ps) b = load ps (insert m i b)

pub load-IsInverse : (ps : List (ℤ × ℤ)) (b : BiMap) → IsInverse b → IsInverse (load ps b)
load-IsInverse [] b h = h
load-IsInverse ((m, i) ∷ ps) b h = load-IsInverse ps (insert m i b) (insert-IsInverse m i b h)

-- No Matter id and no LwM2M id stands in two of the pairs.
abbrev pub IsOneToOne : List (ℤ × ℤ) → Type 0
IsOneToOne [] = Unit {0}
IsOneToOne ((m, i) ∷ ps) = All (λ p. (p.0 ≢ m) × (p.1 ≢ i)) ps × IsOneToOne ps

insert-has :
    (m i m' i' : ℤ) (b : BiMap)
    → m' ≢ m
    → i' ≢ i
    → has m' b.left_map ≡ false
    → has i' b.right_map ≡ false
    → (has m' (insert m i b).left_map ≡ false) × (has i' (insert m i b).right_map ≡ false)
unfolding insert
insert-has m i m' i' b hm hi l r =
    ground (arith, find-put ℤ_discrete m m' i b.left_map, find-put ℤ_discrete i i' m b.right_map)

-- No insertion changes a lookup that finds something.
insert_keeps :
    (m i m' i' : ℤ) (b : BiMap)
    → find ℤ_discrete m' b.left_map ≡ some i'
    → find ℤ_discrete i' b.right_map ≡ some m'
    → (find ℤ_discrete m' (insert m i b).left_map ≡ some i')
      × (find ℤ_discrete i' (insert m i b).right_map ≡ some m')
unfolding insert
insert_keeps m i m' i' b l r =
    ground (arith, find-put ℤ_discrete m m' i b.left_map, find-put ℤ_discrete i i' m b.right_map)

load_keeps :
    (ps : List (ℤ × ℤ)) (m i : ℤ) (b : BiMap)
    → find ℤ_discrete m b.left_map ≡ some i
    → find ℤ_discrete i b.right_map ≡ some m
    → (find ℤ_discrete m (load ps b).left_map ≡ some i)
      × (find ℤ_discrete i (load ps b).right_map ≡ some m)
load_keeps [] m i b l r = (l, r)
load_keeps ((m', i') ∷ ps) m i b l r =
    let (l', r') = insert_keeps m' i' m i b l r in load_keeps ps m i (insert m' i' b) l' r'

-- Neither id of the pair is taken.
abbrev IsFree : BiMap → ℤ × ℤ → Type 0
IsFree b p = (has p.0 b.left_map ≡ false) × (has p.1 b.right_map ≡ false)

IsFree-after :
    (m i : ℤ) (b : BiMap) (ps : List (ℤ × ℤ))
    → All (λ p. (p.0 ≢ m) × (p.1 ≢ i)) ps
    → All (IsFree b) ps
    → All (IsFree (insert m i b)) ps
IsFree-after m i b [] d f = tt
IsFree-after m i b ((m', i') ∷ ps) (d, ds) (f, fs) =
    (insert-has m i m' i' b d.0 d.1 f.0 f.1, IsFree-after m i b ps ds fs)

insert-find :
    (m i : ℤ) (b : BiMap)
    → has m b.left_map ≡ false
    → has i b.right_map ≡ false
    → (find ℤ_discrete m (insert m i b).left_map ≡ some i)
      × (find ℤ_discrete i (insert m i b).right_map ≡ some m)
unfolding insert
insert-find m i b l r =
    ground (arith, find-put ℤ_discrete m m i b.left_map, find-put ℤ_discrete i i m b.right_map)

-- Each id of the pair is found in its map with the other.
abbrev pub Finds : BiMap → ℤ × ℤ → Type 0
Finds b p =
    (find ℤ_discrete p.0 b.left_map ≡ some p.1) × (find ℤ_discrete p.1 b.right_map ≡ some p.0)

load-Finds_from :
    (ps : List (ℤ × ℤ)) (b : BiMap) → IsOneToOne ps → All (IsFree b) ps → All (Finds (load ps b)) ps
load-Finds_from [] b o f = tt
load-Finds_from ((m, i) ∷ ps) b (d, o) (f, fs) =
    let (l, r) = insert-find m i b f.0 f.1 in
    (
      load_keeps ps m i (insert m i b) l r,
      load-Finds_from ps (insert m i b) o (IsFree-after m i b ps d fs),
    )

IsFree-empty : (ps : List (ℤ × ℤ)) → All (IsFree empty) ps
unfolding find
IsFree-empty [] = tt
IsFree-empty ((m, i) ∷ ps) = ((refl, refl), IsFree-empty ps)

pub load-Finds : (ps : List (ℤ × ℤ)) → IsOneToOne ps → All (Finds (load ps empty)) ps
load-Finds ps o = load-Finds_from ps empty o (IsFree-empty ps)

-- Each id of the pair leads to the other.
abbrev pub Links : BiMap → ℤ × ℤ → Type 0
Links b p = (get_ipso_id p.0 b ≡ p.1) × (get_matter_id p.1 b ≡ p.0)

Links-Finds : (b : BiMap) (p : ℤ × ℤ) → Finds b p → Links b p
unfolding get_ipso_id get_matter_id
Links-Finds b p (l, r) = (rw l, rw r)

-- A mapping that is one to one is loaded without loss: each of its Matter ids leads to its LwM2M id,
-- and each LwM2M id to its Matter id.
pub load-Links : (ps : List (ℤ × ℤ)) → IsOneToOne ps → All (Links (load ps empty)) ps
load-Links ps o = All-map (Links-Finds (load ps empty)) ps (load-Finds ps o)

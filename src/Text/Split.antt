-- ===== src/Text/Split.antt =====
-- `SplitString` of main/CoapServer.cpp against a reference definition by recursion on the text.

use native.Mathlib.Nat.{zero-add, suc-add}
use matter_lwm2m_bridge.Base.{
  ℕ, zero, suc, ◌+◌, ◌-◌, ◌<◌, ◌≡◌, refl, List, [], ◌∷◌, ◌++◌, arith, length, ◌==◌, if◌then◌else◌,
  take, drop, none, some, append_assoc, ◌≢◌, All, Option-cases, inl, inr, ==_of_eq, ==_of_ne,
  ℕ_discrete,
}
use matter_lwm2m_bridge.Text.Defs.{Bytes, Lacks, index_of, split_loop, split_string}

-- A character in front of the first token.
abbrev onto_head : ℕ → List Bytes → List Bytes
onto_head c [] = (c ∷ []) ∷ []
onto_head c (p ∷ ps) = (c ∷ p) ∷ ps

-- The tokens between the delimiters, with no position computed.
unfoldable pub tokens_of : ℕ → Bytes → List Bytes
tokens_of d [] = [] ∷ []
tokens_of d (c ∷ s) = if c == d then [] ∷ tokens_of d s else onto_head c (tokens_of d s)

-- The tokens with the delimiter put back between them.
unfoldable pub join : ℕ → List Bytes → Bytes
join d [] = []
join d (p ∷ []) = p
join d (p ∷ q ∷ ps) = p ++ d ∷ join d (q ∷ ps)

tokens_of-none : (d : ℕ) (s : Bytes) → index_of d s ≡ none → tokens_of d s ≡ s ∷ []
unfolding tokens_of index_of
tokens_of-none d [] h = refl
tokens_of-none d (c ∷ s) h = ground (arith, tokens_of-none d s)

tokens_of-some :
    (d : ℕ) (s : Bytes) (i : ℕ)
    → index_of d s ≡ some i
    → (tokens_of d s ≡ take i s ∷ tokens_of d (drop (suc i) s)) × (i < length s)
unfolding tokens_of index_of
tokens_of-some d [] i h = cc
tokens_of-some d (c ∷ s) zero h = ground (arith, tokens_of-none d s)
tokens_of-some d (c ∷ s) (suc i) h = ground (arith, tokens_of-some d s i)

drop-nil {ℓ} : {A : Type ℓ} (j : ℕ) → drop {A = A} j [] ≡ []
drop-nil zero = refl
drop-nil (suc j) = refl

drop-drop {ℓ} : {A : Type ℓ} (i j : ℕ) (s : List A) → drop (i + j) s ≡ drop j (drop i s)
drop-drop zero j s = rw zero-add
drop-drop (suc i) j [] = rw (drop-nil (suc i + j), drop-nil j)
drop-drop (suc i) j (c ∷ s) = rw suc-add (drop-drop i j s)

length-drop {ℓ} : {A : Type ℓ} (n : ℕ) (s : List A) → length (drop n s) ≡ length s - n
length-drop zero s = omega arith
length-drop (suc n) [] = omega arith
length-drop (suc n) (x ∷ s) = omega (arith, length-drop n s)

split_loop-none :
    (fuel : ℕ) (s : Bytes) (d start : ℕ) (tokens : List Bytes)
    → index_of d (drop start s) ≡ none
    → split_loop (suc fuel) s d start tokens ≡ tokens ++ drop start s ∷ []
unfolding split_loop
split_loop-none fuel s d start tokens e = ground arith

split_loop-some :
    (fuel : ℕ) (s : Bytes) (d start i : ℕ) (tokens : List Bytes)
    → index_of d (drop start s) ≡ some i
    → split_loop (suc fuel) s d start tokens
      ≡ split_loop fuel s d (start + suc i) (tokens ++ take i (drop start s) ∷ [])
unfolding split_loop
split_loop-some fuel s d start i tokens e =
    let at_end : start + i + 1 ≡ start + suc i = omega arith in
    let width : start + i - start ≡ i = omega arith in rw (e, split_loop, at_end, width)

-- What the loop still has to cut is the text behind `start`.
split_loop_lem :
    (fuel : ℕ) (s : Bytes) (d start : ℕ) (tokens : List Bytes)
    → length (drop start s) < fuel
    → split_loop fuel s d start tokens ≡ tokens ++ tokens_of d (drop start s)
split_loop_lem zero s d start tokens h = elim h [ ]
split_loop_lem (suc fuel) s d start tokens h = elim (Option-cases (index_of d (drop start s))) [
  | inl e ↦ rw (split_loop-none fuel s d start tokens e, tokens_of-none d (drop start s) e)
  | inr (i, e) ↦
      let (tail, bound) = tokens_of-some d (drop start s) i e in
      let shorter : length (drop (start + suc i) s) < fuel =
        omega (arith, length-drop {0} (start + suc i) s, length-drop {0} start s) in
      let rest =
        split_loop_lem fuel s d (start + suc i) (tokens ++ take i (drop start s) ∷ []) shorter in
      rw (
        split_loop-some fuel s d start i tokens e,
        rest,
        tail,
        append_assoc,
        drop-drop start (suc i) s,
      )
]

-- `SplitString` returns the tokens between the delimiters, in order: its `find` and `substr` loop is
-- the recursive cutting of the text, for every text and delimiter.
pub split_string-eq-tokens_of : (s : Bytes) (d : ℕ) → split_string s d ≡ tokens_of d s
unfolding split_string
split_string-eq-tokens_of s d = split_loop_lem (length s + 1) s d 0 [] (omega arith)

tokens_of-ne-nil : (d : ℕ) (s : Bytes) → tokens_of d s ≢ []
unfolding tokens_of
tokens_of-ne-nil d [] = ground arith
tokens_of-ne-nil d (c ∷ s) =
    elim (tokens_of d s) as (λ ts. (if c == d then [] ∷ ts else onto_head c ts) ≢ []) [
      | [] ↦ ground arith
      | p ∷ ps ↦ ground arith
    ]

join-onto_head : (d c : ℕ) (ts : List Bytes) → join d (onto_head c ts) ≡ c ∷ join d ts
unfolding join
join-onto_head d c [] = refl
join-onto_head d c (p ∷ []) = refl
join-onto_head d c (p ∷ q ∷ ps) = refl

join_empty_head : (d : ℕ) (ts : List Bytes) → ts ≢ [] → join d ([] ∷ ts) ≡ d ∷ join d ts
unfolding join
join_empty_head d [] h = absurd (h refl)
join_empty_head d (p ∷ ps) h = refl

join-tokens_of : (d : ℕ) (s : Bytes) → join d (tokens_of d s) ≡ s
unfolding tokens_of
join-tokens_of d [] = unfold join in refl
join-tokens_of d (c ∷ s) = ground (
  arith,
  join-tokens_of d s,
  join-onto_head d c (tokens_of d s),
  join_empty_head d (tokens_of d s) (tokens_of-ne-nil d s),
)

onto_head-Lacks :
    (d c : ℕ) (ts : List Bytes) → c ≢ d → All (Lacks d) ts → All (Lacks d) (onto_head c ts)
onto_head-Lacks d c [] h a = ((h, tt), tt)
onto_head-Lacks d c (p ∷ ps) h (a, b) = ((h, a), b)

tokens_of-Lacks : (d : ℕ) (s : Bytes) → All (Lacks d) (tokens_of d s)
unfolding tokens_of
tokens_of-Lacks d [] = (tt, tt)
tokens_of-Lacks d (c ∷ s) = elim (ℕ_discrete c d) [
  | yes e ↦ rw (==_of_eq c d e) (tt, tokens_of-Lacks d s)
  | no e ↦ rw (==_of_ne c d e) (onto_head-Lacks d c (tokens_of d s) e (tokens_of-Lacks d s))
]

pub tokens_of-append :
    (d : ℕ) (p s : Bytes) → Lacks d p → tokens_of d (p ++ d ∷ s) ≡ p ∷ tokens_of d s
unfolding tokens_of
tokens_of-append d [] s h = ground arith
tokens_of-append d (c ∷ p) s h = ground (arith, tokens_of-append d p s)

pub tokens_of_self : (d : ℕ) (p : Bytes) → Lacks d p → tokens_of d p ≡ p ∷ []
unfolding tokens_of
tokens_of_self d [] h = refl
tokens_of_self d (c ∷ p) h = ground (arith, tokens_of_self d p)

-- What `SplitString` returns spells the text when the delimiter is put back between the tokens,
-- and no token holds the delimiter.
pub split_string-join :
    (s : Bytes) (d : ℕ) → (join d (split_string s d) ≡ s) × All (Lacks d) (split_string s d)
split_string-join s d = rw (split_string-eq-tokens_of s d) (join-tokens_of d s, tokens_of-Lacks d s)

-- A path of three parts, none of which holds the delimiter, is cut into these parts.
pub split_string_three :
    (d : ℕ) (a b c : Bytes)
    → Lacks d a
    → Lacks d b
    → Lacks d c
    → split_string (a ++ d ∷ b ++ d ∷ c) d ≡ a ∷ b ∷ c ∷ []
split_string_three d a b c ha hb hc = rw (
  split_string-eq-tokens_of,
  append_assoc,
  tokens_of-append d a _ ha,
  tokens_of-append d b c hb,
  tokens_of_self d c hc,
)

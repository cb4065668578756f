-- ===== src/Slashes/Between.antt =====
-- What `ExtractBetweenSlashes` returns, by the number of slashes in the text.
use matter_lwm2m_bridge.Base.{
  ℕ, zero, suc, ◌+◌, ◌≤◌, ◌<◌, ◌≡◌, refl, ap, none, some, [], ◌∷◌, ◌++◌, append_assoc, arith,
  length, length-append, take, take-append, drop-append, List,
}
use matter_lwm2m_bridge.Text.{Bytes, slash, Lacks, substr}
use matter_lwm2m_bridge.Slashes.{
  size_mod, npos, sub_size, last_index_of, rfind_char, extract_between_slashes,
}

last_index_of-Lacks : (c : ℕ) (s : Bytes) → Lacks c s → last_index_of c s ≡ none
unfolding last_index_of
last_index_of-Lacks c [] h = refl
last_index_of-Lacks c (d ∷ s) h = ground (arith, last_index_of-Lacks c s)

last_index_of-append :
    (c : ℕ) (a b : Bytes) → Lacks c b → last_index_of c (a ++ c ∷ b) ≡ some (length a)
unfolding last_index_of
last_index_of-append c [] b h = ground (arith, last_index_of-Lacks c b)
last_index_of-append c (d ∷ a) b h = ground (arith, last_index_of-append c a b)

take_ge {ℓ} : {A : Type ℓ} (n : ℕ) (s : List A) → length s ≤ n → take n s ≡ s
take_ge zero [] h = refl
take_ge zero (x ∷ s) h = absurd (omega arith)
take_ge (suc n) [] h = refl
take_ge (suc n) (x ∷ s) h = ap (λ t. x ∷ t) (take_ge n s (omega arith))

-- With no limit the search finds the last slash of the text.
rfind_last :
    (a c : Bytes)
    → Lacks slash c
    → length (a ++ slash ∷ c) < size_mod
    → rfind_char (a ++ slash ∷ c) slash npos ≡ some (length a)
unfolding rfind_char
rfind_last a c h l =
    rw (take_ge (npos + 1) (a ++ slash ∷ c) (omega arith)) (last_index_of-append slash a c h)

-- Limited to the first `length a` characters, it searches these alone.
rfind_before :
    (a c : Bytes) (p : ℕ) → p + 1 ≡ length a → rfind_char (a ++ c) slash p ≡ last_index_of slash a
unfolding rfind_char
rfind_before a c p e = rw (e, take-append a c)

extract_found :
    (s : Bytes) (last prev : ℕ)
    → rfind_char s slash npos ≡ some last
    → rfind_char s slash (sub_size last 1) ≡ some prev
    → extract_between_slashes s ≡ substr s (prev + 1) (sub_size (sub_size last prev) 1)
unfolding extract_between_slashes
extract_found s last prev e e' = ground arith

extract_one :
    (s : Bytes) (last : ℕ)
    → rfind_char s slash npos ≡ some last
    → rfind_char s slash (sub_size last 1) ≡ none
    → extract_between_slashes s ≡ []
unfolding extract_between_slashes
extract_one s last e e' = ground arith

extract_none : (s : Bytes) → rfind_char s slash npos ≡ none → extract_between_slashes s ≡ []
unfolding extract_between_slashes
extract_none s e = ground arith

-- The part of `a / b / c` that begins behind `a /` and has the length of `b`.
substr_middle :
    (a b c : Bytes) (k : ℕ)
    → k ≡ length a + 1
    → substr ((a ++ slash ∷ b) ++ slash ∷ c) k (length b) ≡ b
unfolding substr
substr_middle a b c k e =
    let k' : k ≡ length (a ++ slash ∷ []) = omega (arith, length-append {0} a (slash ∷ [])) in
    rw
      (
        k',
        append_assoc a (slash ∷ b) (slash ∷ c),
        ← append_assoc a (slash ∷ []) (b ++ slash ∷ c),
        drop-append (a ++ slash ∷ []) (b ++ slash ∷ c),
      )
      (take-append b (slash ∷ c))

-- A text with two slashes or more: the result is what stands between the last two.
pub extract_two_slashes :
    (a b c : Bytes)
    → Lacks slash b
    → Lacks slash c
    → length ((a ++ slash ∷ b) ++ slash ∷ c) < size_mod
    → extract_between_slashes ((a ++ slash ∷ b) ++ slash ∷ c) ≡ b
extract_two_slashes a b c hb hc l =
    let s = (a ++ slash ∷ b) ++ slash ∷ c in
    let n : length (a ++ slash ∷ b) ≡ length a + suc (length b) =
      omega (arith, length-append {0} a (slash ∷ b)) in
    let whole : length s ≡ length (a ++ slash ∷ b) + suc (length c) =
      omega (arith, length-append {0} (a ++ slash ∷ b) (slash ∷ c)) in
    let p : sub_size (length (a ++ slash ∷ b)) 1 + 1 ≡ length (a ++ slash ∷ b) = omega arith in
    let w : sub_size (sub_size (length (a ++ slash ∷ b)) (length a)) 1 ≡ length b = omega arith in
    rw
      (
        extract_found s (length (a ++ slash ∷ b)) (length a) (rfind_last (a ++ slash ∷ b) c hc l) (
            rw (rfind_before (a ++ slash ∷ b) (slash ∷ c) _ p) (last_index_of-append slash a b hb)),
        w,
      )
      (substr_middle a b c (length a + 1) refl)

-- No slash: the result is empty.
pub extract_no_slash :
    (s : Bytes) → Lacks slash s → length s < size_mod → extract_between_slashes s ≡ []
extract_no_slash s h l =
    extract_none s
      (unfold rfind_char in rw (take_ge (npos + 1) s (omega arith)) (last_index_of-Lacks slash s h))

-- One slash, and text in front of it: the result is empty.
pub extract_one_slash :
    (d : ℕ) (a c : Bytes)
    → Lacks slash (d ∷ a)
    → Lacks slash c
    → length ((d ∷ a) ++ slash ∷ c) < size_mod
    → extract_between_slashes ((d ∷ a) ++ slash ∷ c) ≡ []
extract_one_slash d a c ha hc l =
    let whole : length ((d ∷ a) ++ slash ∷ c) ≡ length (d ∷ a) + suc (length c) =
      omega (arith, length-append {0} (d ∷ a) (slash ∷ c)) in
    let p : sub_size (length (d ∷ a)) 1 + 1 ≡ length (d ∷ a) = omega arith in
    extract_one ((d ∷ a) ++ slash ∷ c) (length (d ∷ a)) (rfind_last (d ∷ a) c hc l)
      (rw (rfind_before (d ∷ a) (slash ∷ c) _ p) (last_index_of-Lacks slash (d ∷ a) ha))

-- One slash, at the very front: the position before it wraps round to `npos`, the same slash is
-- found again, and the result is all the text behind it.
pub extract_leading_slash :
    (c : Bytes)
    → Lacks slash c
    → length (slash ∷ c) < size_mod
    → extract_between_slashes (slash ∷ c) ≡ c
extract_leading_slash c h l =
    rw (extract_found (slash ∷ c) 0 0 (rfind_last [] c h l) (rfind_last [] c h l))
      (unfold substr in take_ge npos c (omega arith))

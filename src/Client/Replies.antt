-- ===== src/Client/Replies.antt =====
-- What the answer buffer of `CoapClientGet` holds after a response, and when it is overrun.
use matter_lwm2m_bridge.Base.{
  ℕ, zero, suc, ◌+◌, ◌≤◌, ◌<◌, ◌≡◌, ◌≢◌, refl, ap, ◌∙◌, List, [], ◌∷◌, ◌++◌, arith, length, set,
  length-append, length-set, lt→ltb, append_assoc, ==_of_ne,
}
use matter_lwm2m_bridge.Text.{Bytes, Lacks}
use matter_lwm2m_bridge.Client.State.{Buffer}
use matter_lwm2m_bridge.Client.Answer.{poke, pad, strncpy, write_answer}

length-poke : (i b : ℕ) (m : Buffer) → length (poke i b m).cells ≡ length m.cells
unfolding poke
length-poke i b m = ground (arith, length-set {0} m.cells i b)

length-pad : (n i : ℕ) (m : Buffer) → length (pad n i m).cells ≡ length m.cells
unfolding pad
length-pad zero i m = refl
length-pad (suc n) i m = length-pad n (i + 1) (poke i 0 m) ∙ length-poke i 0 m

length-strncpy :
    (src : Bytes) (n i : ℕ) (m : Buffer) → length (strncpy src n i m).cells ≡ length m.cells
unfolding strncpy
length-strncpy src zero i m = refl
length-strncpy [] (suc n) i m = length-pad (suc n) i m
length-strncpy (b ∷ src) (suc n) i m =
    ground
      (arith, length-pad (suc n) i m, length-strncpy src n (i + 1) (poke i b m), length-poke i b m)

set_at {ℓ} :
    {A : Type ℓ} (a : List A) (x v : A) (r : List A) → set (a ++ x ∷ r) (length a) v ≡ a ++ v ∷ r
set_at [] x v r = refl
set_at (y ∷ a) x v r = ap (λ t. y ∷ t) (set_at a x v r)

-- A write at the position behind `a` of the buffer `a ++ x ∷ r`.
poke_at :
    (a : Bytes) (x v : ℕ) (r strays : Bytes)
    → poke (length a) v (record { cells = a ++ x ∷ r; strayed = strays })
      ≡ record { cells = a ++ v ∷ r; strayed = strays }
unfolding poke
poke_at a x v r strays =
    let inside : length a < length (a ++ x ∷ r) = omega (arith, length-append {0} a (x ∷ r)) in
    rw (lt→ltb _ _ inside, set_at a x v r)

strncpy_step :
    (b : ℕ) (src : Bytes) (n i : ℕ) (m : Buffer)
    → b ≢ 0
    → strncpy (b ∷ src) (suc n) i m ≡ strncpy src n (i + 1) (poke i b m)
unfolding strncpy
strncpy_step b src n i m h = rw (==_of_ne b 0 h)

poke_outside : (i b : ℕ) (m : Buffer) → length m.cells ≤ i → (poke i b m).strayed ≡ i ∷ m.strayed
unfolding poke
poke_outside i b m h = ground arith

strncpy_fits :
    (src a old post strays : Bytes) (i : ℕ)
    → Lacks 0 src
    → length old ≡ length src
    → i ≡ length a
    → strncpy src (length src) i (record { cells = a ++ old ++ post; strayed = strays })
      ≡ record { cells = a ++ src ++ post; strayed = strays }
strncpy_fits [] a [] post strays i h l e = unfold strncpy in refl
strncpy_fits [] a (x ∷ old) post strays i h l e = absurd (omega arith)
strncpy_fits (b ∷ src) a [] post strays i h l e = absurd (omega arith)
strncpy_fits (b ∷ src) a (x ∷ old) post strays i (h, hs) l e =
    let apart : a ++ x ∷ old ++ post ≡ a ++ x ∷ (old ++ post) = append_assoc a (x ∷ old) post in
    let joined : a ++ b ∷ (old ++ post) ≡ a ++ b ∷ [] ++ old ++ post = simp append_assoc in
    let rest =
      strncpy_fits src (a ++ b ∷ []) old post strays (length a + 1) hs (omega arith)
        (omega (arith, length-append {0} a (b ∷ []))) in
    rw
      (
        strncpy_step b src (length src) i _ h,
        apart,
        e,
        poke_at a x b (old ++ post) strays,
        joined,
        rest,
      )
      (simp append_assoc)

-- A response shorter than the buffer, with no 0 in it, is written whole with a 0 behind it; the rest
-- of the buffer stays, and nothing outside it is written.
pub write_answer_fits :
    (payload old post strays : Bytes) (z : ℕ)
    → Lacks 0 payload
    → length old ≡ length payload
    → write_answer payload (record { cells = old ++ z ∷ post; strayed = strays })
      ≡ record { cells = payload ++ 0 ∷ post; strayed = strays }
unfolding write_answer
write_answer_fits payload old post strays z h l =
    rw (strncpy_fits payload [] old (z ∷ post) strays 0 h l refl) (poke_at payload z 0 post strays)

-- A response as long as the buffer or longer is written past its end: the terminating 0 lands at
-- the position of the response's length, which is outside.
pub write_answer_strays :
    (payload : Bytes) (m : Buffer)
    → length m.cells ≤ length payload
    → (strays : Bytes) × ((write_answer payload m).strayed ≡ length payload ∷ strays)
unfolding write_answer
write_answer_strays payload m h =
    let copied = strncpy payload (length payload) 0 m in
    (
      copied.strayed,
      poke_outside (length payload) 0 copied
          (omega (arith, length-strncpy payload (length payload) 0 m)),
    )

-- ===== src/Program/Flow.antt =====
-- How a part of the start of the program ends.
use matter_lwm2m_bridge.Base.{◌≡◌, Option, none, some, Result, ok, err}
use matter_lwm2m_bridge.Client.State.{Client, Run, returned, terminated, looping}

-- It is done, it does not end (within the fuel), or it ends the program by an exception or a fault.
pub data Flow (A : Type 0) : Type 0 where
  done : A → Flow A
  endless : Flow A
  thrown : Flow A

infixl 5 ◌>>=◌
unfoldable pub ◌>>=◌ : {A B : Type 0} → Flow A → (A → Flow B) → Flow B
done a >>= f = f a
endless >>= f = endless
thrown >>= f = thrown

-- A function of the client; its result is not used.
abbrev pub finished : Run → Flow Client
finished (returned _ c) = done c
finished (terminated c) = thrown
finished (looping c) = endless

abbrev pub checked : {A : Type 0} → Result A → Flow A
checked (ok a) = done a
checked (err _) = thrown

abbrev pub present : {A : Type 0} → Option A → Flow A
present none = thrown
present (some a) = done a

-- What is known of the value where it is done.
abbrev pub IfDone : {A : Type 0} → (A → Type 0) → Flow A → Type 0
IfDone P (done a) = P a
IfDone P endless = Unit
IfDone P thrown = Unit

pub IfDone-bind :
    {A B : Type 0} (P : A → Type 0) (Q : B → Type 0) (m : Flow A) (f : A → Flow B)
    → IfDone P m
    → ((a : A) → P a → IfDone Q (f a))
    → IfDone Q (m >>= f)
unfolding ◌>>=◌
IfDone-bind P Q (done a) f h k = k a h
IfDone-bind P Q endless f h k = tt
IfDone-bind P Q thrown f h k = tt

-- It is done, with a value of which `P` holds.
abbrev pub Completes : {A : Type 0} → (A → Type 0) → Flow A → Type 0
Completes {A} P m = (a : A) × (m ≡ done a) × P a

pub Completes-bind :
    {A B : Type 0} (P : A → Type 0) (Q : B → Type 0) (m : Flow A) (f : A → Flow B)
    → Completes P m
    → ((a : A) → P a → Completes Q (f a))
    → Completes Q (m >>= f)
unfolding ◌>>=◌
Completes-bind P Q m f (a, e, h) k = let (b, d, q) = k a h in (b, rw e d, q)

-- ===== src/Client/Ends.antt =====
-- What holds when a step of the client ends, and the rule for one step behind another.
use mathlib.Core.Path.{◌≡◌, refl, sym, subst}
use matter_lwm2m_bridge.Client.State.{Client, Outcome, value, finish, threw, running, Step, ◌>>=◌}

-- `Q` where the step goes on, `S` where it jumps to `finish` or throws, `R` where it still runs.
abbrev pub EndsWith :
    {A : Type 0}
    → (Client → Type 0)
    → (Client → Type 0)
    → (Client → Type 0)
    → Outcome A × Client
    → Type 0
EndsWith S R Q (value a, c) = Q c
EndsWith S R Q (finish, c) = S c
EndsWith S R Q (threw, c) = S c
EndsWith S R Q (running, c) = R c

pub EndsWith-bind :
    {A B : Type 0} (S R : Client → Type 0) (m : Step A) (f : A → Step B) (P Q : Client → Type 0)
    (c : Client)
    → EndsWith {A = A} S R P (m c)
    → ((a : A) (c' : Client) → P c' → EndsWith {A = B} S R Q (f a c'))
    → EndsWith {A = B} S R Q ((m >>= f) c)
EndsWith-bind {A = A} {B = B} S R m f P Q c h k = by_outcome (m c) h
  where
    by_outcome :
        (r : Outcome A × Client)
        → EndsWith {A = A} S R P r
        → EndsWith {A = B} S R Q (elim r.0 [
          | value a ↦ f a r.1
          | finish ↦ (finish, r.1)
          | threw ↦ (threw, r.1)
          | running ↦ (running, r.1)
        ])
    by_outcome (value a, c') h = k a c' h
    by_outcome (finish, c') h = h
    by_outcome (threw, c') h = h
    by_outcome (running, c') h = h

-- The rule where the first step's result is known.
pub bind_value :
    {A B : Type 0} (m : Step A) (f : A → Step B) (c c' : Client) (a : A)
    → m c ≡ (value a, c')
    → (m >>= f) c ≡ f a c'
bind_value {A = A} {B = B} m f c c' a e =
    subst
      (λ (r : Outcome A × Client).
        ◌≡◌ {A = Outcome B × Client}
          (elim r.0 [
            | value a ↦ f a r.1
            | finish ↦ (finish, r.1)
            | threw ↦ (threw, r.1)
            | running ↦ (running, r.1)
          ])
          (f a c'))
      (sym e) refl

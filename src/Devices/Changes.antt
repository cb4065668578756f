-- ===== src/Devices/Changes.antt =====
-- A device tells its callback of exactly what has changed.
use mathlib.Core.Logic.{ite}
use matter_lwm2m_bridge.Base.{
  ℕ, zero, suc, ◌≤◌, ◌<◌, ◌≡◌, ◌≢◌, refl, ap, Bool, true, false, ◌&&◌, List, [], ◌∷◌, ◌++◌, length,
  take, take_longer, append-nil, inl, inr, ◌⊎◌, Bool-cases, if◌then◌else◌, arith,
}
use matter_lwm2m_bridge.Text.{Bytes, Bytes_discrete, ite_of_eq, ite_of_ne}
use matter_lwm2m_bridge.Devices.{
  device_name_size, device_location_size, State, state_on, state_off, Changed, changed_reachable,
  changed_state, changed_location, changed_name, Device, same_state, same_bool, set_on_off,
  set_reachable, set_name, set_location,
}

-- The setters.
pub data Setter : Type 0 where
  on_off : Bool → Setter
  reachability : Bool → Setter
  new_name : Bytes → Setter
  new_location : Bytes → Setter

-- The text fits the array with its terminating 0.
abbrev pub IsShort : Setter → Type 0
IsShort (new_name s) = length s < device_name_size
IsShort (new_location s) = length s < device_location_size
IsShort _ = Unit

-- The arrays of a device end within their size.
abbrev pub IsTerminated : Device → Type 0
IsTerminated d = (length d.name < device_name_size) × (length d.location < device_location_size)

-- What tells two devices apart.
abbrev pub differences : Device → Device → List Changed
differences d e =
    (if same_state d.state e.state then [] else changed_state ∷ [])
    ++ (if same_bool d.reachable e.reachable then [] else changed_reachable ∷ [])
    ++ ite (Bytes_discrete d.location e.location) [] (changed_location ∷ [])
    ++ ite (Bytes_discrete d.name e.name) [] (changed_name ∷ [])

same_state_refl : (s : State) → same_state s s ≡ true
same_state_refl state_on = refl
same_state_refl state_off = refl

same_bool_refl : (b : Bool) → same_bool b b ≡ true
same_bool_refl true = refl
same_bool_refl false = refl

State-cases : (s : State) → (s ≡ state_on) ⊎ (s ≡ state_off)
State-cases state_on = inl refl
State-cases state_off = inr refl

length-take : {A : Type 0} (n : ℕ) (xs : List A) → length (take n xs) < suc n
length-take zero xs = omega arith
length-take (suc n) [] = omega arith
length-take (suc n) (x ∷ xs) = omega (arith, length-take n xs)

length-take_full : {A : Type 0} (n : ℕ) (xs : List A) → n ≤ length xs → length (take n xs) ≡ n
length-take_full zero xs h = refl
length-take_full (suc n) [] h = elim h [ ]
length-take_full (suc n) (x ∷ xs) h = ap suc (length-take_full n xs (omega arith))

if_differs :
    {P : Type 0} (dec : Dec P) (x : Changed)
    → (if ite dec false true && true then x ∷ [] else []) ≡ ite dec [] (x ∷ [])
if_differs (yes p) x = refl
if_differs (no p) x = refl

module _ (copy_string : ℕ → Bytes → Bytes) where
  -- As much of the text as leaves room for the terminating 0 is copied.
  abbrev pub Truncates : Type 0
  Truncates = (n : ℕ) (s : Bytes) → copy_string (suc n) s ≡ take n s

  abbrev pub apply : Setter → Device → Device × List Changed
  apply (on_off b) d = set_on_off b d
  apply (reachability b) d = set_reachable b d
  apply (new_name s) d = set_name copy_string s d
  apply (new_location s) d = set_location copy_string s d

  -- With a callback in place, a setter calls it once for each thing that it changes and not at all
  -- when nothing changes: the calls are the differences between the device before and after. The new
  -- text, and the texts of the device, fit their arrays, and `CopyString` truncates.
  pub apply-differences :
      (x : Setter) (d : Device)
      → Truncates
      → IsShort x
      → IsTerminated d
      → d.changed_cb ≡ true
      → (apply x d).1 ≡ differences d (apply x d).0
  unfolding set_on_off set_reachable set_name set_location
  apply-differences (on_off true) d t s h c = elim (State-cases d.state) [
    | inl e ↦
        rw
          (
            c,
            e,
            same_bool_refl d.reachable,
            ite_of_eq d.location d.location [] (changed_location ∷ []) refl,
            ite_of_eq d.name d.name [] (changed_name ∷ []) refl,
          )
          refl
    | inr e ↦
        rw
          (
            c,
            e,
            same_bool_refl d.reachable,
            ite_of_eq d.location d.location [] (changed_location ∷ []) refl,
            ite_of_eq d.name d.name [] (changed_name ∷ []) refl,
          )
          refl
  ]
  apply-differences (on_off false) d t s h c = elim (State-cases d.state) [
    | inl e ↦
        rw
          (
            c,
            e,
            same_bool_refl d.reachable,
            ite_of_eq d.location d.location [] (changed_location ∷ []) refl,
            ite_of_eq d.name d.name [] (changed_name ∷ []) refl,
          )
          refl
    | inr e ↦
        rw
          (
            c,
            e,
            same_bool_refl d.reachable,
            ite_of_eq d.location d.location [] (changed_location ∷ []) refl,
            ite_of_eq d.name d.name [] (changed_name ∷ []) refl,
          )
          refl
  ]
  apply-differences (reachability r) d t s h c = elim (Bool-cases (same_bool d.reachable r)) [
    | inl e ↦
        rw
          (
            c,
            e,
            same_state_refl d.state,
            ite_of_eq d.location d.location [] (changed_location ∷ []) refl,
            ite_of_eq d.name d.name [] (changed_name ∷ []) refl,
          )
          refl
    | inr e ↦
        rw
          (
            c,
            e,
            same_state_refl d.state,
            ite_of_eq d.location d.location [] (changed_location ∷ []) refl,
            ite_of_eq d.name d.name [] (changed_name ∷ []) refl,
          )
          refl
  ]
  apply-differences (new_name n) d t s h c =
      rw
        (
          c,
          t 31 n,
          take_longer n 31 (omega arith),
          take_longer n 32 (omega arith),
          take_longer d.name 32 (omega (arith, h.0)),
          same_bool_refl d.reachable,
          same_state_refl d.state,
          ite_of_eq d.location d.location [] (changed_location ∷ []) refl,
        )
        (if_differs (Bytes_discrete d.name n) changed_name)
  apply-differences (new_location l) d t s h c =
      rw
        (
          c,
          t 31 l,
          take_longer l 31 (omega arith),
          take_longer l 32 (omega arith),
          take_longer d.location 32 (omega (arith, h.1)),
          same_bool_refl d.reachable,
          same_state_refl d.state,
          ite_of_eq d.name d.name [] (changed_name ∷ []) refl,
          append-nil,
        )
        (if_differs (Bytes_discrete d.location l) changed_location)

  -- Every setter, for every text, leaves the arrays of a device ending within their size.
  pub apply-IsTerminated :
      (x : Setter) (d : Device) → Truncates → IsTerminated d → IsTerminated (apply x d).0
  unfolding set_on_off set_reachable set_name set_location
  apply-IsTerminated (on_off true) d t h = h
  apply-IsTerminated (on_off false) d t h = h
  apply-IsTerminated (reachability r) d t h = h
  apply-IsTerminated (new_name n) d t h = (rw (t 31 n) (length-take 31 n), h.1)
  apply-IsTerminated (new_location l) d t h = (h.0, rw (t 31 l) (length-take 31 l))

  -- Setting a name that does not fit the array a second time leaves the device as it is and is told to
  -- the callback as a change all the same.
  pub set_name-twice :
      (n : Bytes) (d : Device)
      → Truncates
      → device_name_size ≤ length n
      → d.changed_cb ≡ true
      → let once = (set_name copy_string n d).0 in
        ((set_name copy_string n once).0 ≡ once)
        × ((set_name copy_string n once).1 ≡ changed_name ∷ [])
  unfolding set_name
  set_name-twice n d t h c =
      let short : length (take 31 n) ≤ 31 = omega (arith, length-take 31 n) in
      let ne : take 31 n ≢ take 32 n =
        λ e. omega (arith, length-take_full 32 n h, ap length e, short) in
      (
        refl,
        rw
            (
              c,
              t 31 n,
              take_longer (take 31 n) 32 (omega arith),
              ite_of_ne (take 31 n) (take 32 n) false true ne,
            )
            refl,
      )

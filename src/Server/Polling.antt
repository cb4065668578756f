-- ===== src/Server/Polling.antt =====
-- What a GET on an attribute answers, for every time at which the Matter device's answer arrives.
use matter_lwm2m_bridge.Base.{
  ℕ, zero, suc, ◌+◌, ◌*◌, ◌^◌, ◌<◌, ◌≡◌, refl, ℤ, pos, true, false, Option, none, some, [], ◌∷◌,
  ◌++◌, Result, ok, err, Fault, ◌>>=◌, find, length, take, drop, arith, take-append, take_longer,
  append_assoc, if◌then◌else◌,
}
use matter_lwm2m_bridge.Text.{Bytes, codes, Bytes_discrete, stoi}
use matter_lwm2m_bridge.Text.Decimal.{stoi-to_string, length-to_string}
use matter_lwm2m_bridge.Mapping.{MatterIpsoMapping}
use matter_lwm2m_bridge.Binding.{Data, uint16, boolean}
use matter_lwm2m_bridge.Server.Forward.{TypeMap, ids_of_uri, load_bool, load_uint16, load_data}
use mathlib.Core.Logic.{ite}
use matter_lwm2m_bridge.Server.Read.{
  overwrite, snprintf, print_result, Waited, await_result, forward_attribute_read_message,
  response_data, hnd_attribute_get,
}

-- A value of an alternative of `std::variant<uint16_t, bool>`.
abbrev pub IsData : Data → Type 0
IsData (uint16 n) = n < 2 ^ 16
IsData (boolean b) = Unit

abbrev pub number_of : Data → ℤ
number_of (uint16 n) = pos n
number_of (boolean b) = pos (if b then 1 else 0)

-- The first answer arrives during the sleep `k` from `now` on.
abbrev pub ArrivesAt : (ℕ → Option Data) → ℕ → ℕ → Data → Type 0
ArrivesAt arrivals now zero d = arrivals now ≡ some d
ArrivesAt arrivals now (suc k) d = (arrivals now ≡ none) × ArrivesAt arrivals (suc now) k d

abbrev answered : Bytes → ℕ → Data → Waited
answered buffer buf_len d = record {
  buffer = snprintf buffer buf_len (print_result d);
  size = some (length (print_result d));
}

await_result-ArrivesAt :
    (tries k : ℕ) (arrivals : ℕ → Option Data) (now : ℕ) (buf_len : ℕ) (buffer : Bytes) (d : Data)
    → k < tries
    → ArrivesAt arrivals now k d
    → await_result tries arrivals now none buf_len buffer ≡ answered buffer buf_len d
unfolding await_result
await_result-ArrivesAt zero k arrivals now buf_len buffer d l h = elim l [ ]
await_result-ArrivesAt (suc tries) zero arrivals now buf_len buffer d l h = rw (h, await_result)
await_result-ArrivesAt (suc tries) (suc k) arrivals now buf_len buffer d l (h, hs) =
    rw (h, await_result)
      (await_result-ArrivesAt tries k arrivals (suc now) buf_len buffer d (omega arith) hs)

-- No answer during the sleeps from `now` on.
abbrev pub NoArrival : (ℕ → Option Data) → ℕ → ℕ → Type 0
NoArrival arrivals now zero = Unit
NoArrival arrivals now (suc k) = (arrivals now ≡ none) × NoArrival arrivals (suc now) k

await_result-NoArrival :
    (tries : ℕ) (arrivals : ℕ → Option Data) (now : ℕ) (buf_len : ℕ) (buffer : Bytes)
    → NoArrival arrivals now tries
    → await_result tries arrivals now none buf_len buffer ≡ record { buffer = buffer; size = none }
unfolding await_result
await_result-NoArrival zero arrivals now buf_len buffer h = refl
await_result-NoArrival (suc tries) arrivals now buf_len buffer (h, hs) =
    rw (h, await_result) (await_result-NoArrival tries arrivals (suc now) buf_len buffer hs)

await_result-pending :
    (arrivals : ℕ → Option Data) (tries buf_len : ℕ) (buffer : Bytes) (old : Data)
    → arrivals 0 ≡ none
    → await_result (suc tries) arrivals 0 (some old) buf_len buffer ≡ answered buffer buf_len old
unfolding await_result
await_result-pending arrivals tries buf_len buffer old a = rw (a, await_result)

-- The text of a value is short: it fits the handler's buffer of 40 bytes.
print_result-IsData : (d : Data) → IsData d → length (print_result d) < 40
unfolding print_result
print_result-IsData (uint16 n) h = omega (arith, length-to_string n 4 (omega arith))
print_result-IsData (boolean true) h = omega (arith, length-to_string 1 4 (omega arith))
print_result-IsData (boolean false) h = omega (arith, length-to_string 0 4 (omega arith))

stoi-print_result : (d : Data) → IsData d → stoi (print_result d) ≡ ok (number_of d)
unfolding print_result
stoi-print_result (uint16 n) h = stoi-to_string (pos n) (omega arith)
stoi-print_result (boolean true) h = stoi-to_string (pos 1) (omega arith)
stoi-print_result (boolean false) h = stoi-to_string (pos 0) (omega arith)

take-snprintf :
    (buffer s : Bytes) (buf_len : ℕ)
    → length s < buf_len
    → take (length s) (snprintf buffer buf_len s) ≡ s
unfolding snprintf
take-snprintf buffer s zero h = elim h [ ]
take-snprintf buffer s (suc n) h =
    let e = take_longer s n (omega arith) in
    rw (e, append_assoc) (take-append s (0 ∷ drop (length (s ++ 0 ∷ [])) buffer))

abbrev IsOk : Result Data → Type 0
IsOk m = (c : Data) × (m ≡ ok c)

IsOk-ite : {P : Type 0} (dec : Dec P) (m n : Result Data) → IsOk m → IsOk n → IsOk (ite dec m n)
IsOk-ite (yes p) m n h k = h
IsOk-ite (no p) m n h k = k

-- Over the buffer of the handler, a value of each type can be loaded.
load_data-IsOk : (type : Bytes) (x : ℕ) (rest : Bytes) → IsOk (load_data (some type) (1 ∷ x ∷ rest))
unfolding load_data load_bool load_uint16
load_data-IsOk type x rest =
    IsOk-ite (Bytes_discrete type (codes "Boolean")) _ _ (boolean true, refl)
      (IsOk-ite (Bytes_discrete type (codes "Unsigned Integer")) _ _ (uint16 (1 + 256 * x), refl)
        (uint16 0, refl))

-- What the library writes for the two options of the response: nothing for 0, one byte for 1.
abbrev pub IsVarEncoder : (ℕ → Bytes) → Type 0
IsVarEncoder encode_var = (encode_var 0 ≡ []) × (encode_var 1 ≡ 1 ∷ [])

load_data-stack :
    (encode_var : ℕ → Bytes) (type stack : Bytes)
    → IsVarEncoder encode_var
    → length stack ≡ 40
    → IsOk (load_data (some type) (overwrite (encode_var 1) (overwrite (encode_var 0) stack)))
load_data-stack encode_var type [] (e, f) h = absurd (omega (arith, h))
load_data-stack encode_var type (x ∷ []) (e, f) h = absurd (omega (arith, h))
load_data-stack encode_var type (x ∷ y ∷ stack) (e, f) h = rw (e, f) (load_data-IsOk type y stack)

module _ (mapping : MatterIpsoMapping) (types : TypeMap) (arrivals : ℕ → Option Data)
    (encode_var : ℕ → Bytes) (uri stack type : Bytes) (ids : ℤ × ℤ) where
  abbrev buf : Bytes
  buf = overwrite (encode_var 1) (overwrite (encode_var 0) stack)

  -- The handler is its wait, once the ids and the type are there.
  hnd_attribute_get-eq-response_data :
      (old : Option Data)
      → IsVarEncoder encode_var
      → length stack ≡ 40
      → ids_of_uri uri ≡ ok ids
      → find Bytes_discrete uri types ≡ some type
      → hnd_attribute_get mapping types arrivals encode_var uri stack old
        ≡ (response_data (await_result 10 arrivals 0 old 40 buf) >>= λ s. ok (s, none))
  unfolding hnd_attribute_get forward_attribute_read_message
  hnd_attribute_get-eq-response_data old h l e f =
      let k = load_data-stack encode_var type stack h l in rw (e, f, k.1) refl

  -- A GET on a resource with three parts in its path and a registered type, while no result is
  -- pending: if the Matter device's first answer arrives during one of the first ten sleeps, then the
  -- response is its value in decimal, which `std::stoi` reads back, and the global pointer is reset.
  pub hnd_attribute_get-answers :
      (k : ℕ) (d : Data)
      → IsVarEncoder encode_var
      → length stack ≡ 40
      → ids_of_uri uri ≡ ok ids
      → find Bytes_discrete uri types ≡ some type
      → k < 10
      → ArrivesAt arrivals 0 k d
      → IsData d
      → (hnd_attribute_get mapping types arrivals encode_var uri stack none
          ≡ ok (print_result d, none))
        × (stoi (print_result d) ≡ ok (number_of d))
  hnd_attribute_get-answers k d h l e f small a v = (
    rw
        (
          hnd_attribute_get-eq-response_data none h l e f,
          await_result-ArrivesAt 10 k arrivals 0 40 buf d small a,
          take-snprintf buf (print_result d) 40 (print_result-IsData d v),
        )
        refl,
    stoi-print_result d v,
  )

  -- A GET on a resource with three parts in its path and a registered type, while no result is
  -- pending, to which no answer arrives within ten sleeps, sends a response of a length that was never
  -- written: its behaviour is undefined.
  pub hnd_attribute_get-timeout :
      IsVarEncoder encode_var
      → length stack ≡ 40
      → ids_of_uri uri ≡ ok ids
      → find Bytes_discrete uri types ≡ some type
      → NoArrival arrivals 0 10
      → hnd_attribute_get mapping types arrivals encode_var uri stack none ≡ err Fault.undefined
  hnd_attribute_get-timeout h l e f a =
      rw
        (
          hnd_attribute_get-eq-response_data none h l e f,
          await_result-NoArrival 10 arrivals 0 40 buf a,
        )
        refl

  -- A GET on a resource with three parts in its path and a registered type, made while the result of
  -- an earlier read is pending and with no new answer during the first sleep, answers that old value,
  -- whatever attribute is asked for.
  pub hnd_attribute_get-stale :
      (old : Data)
      → IsVarEncoder encode_var
      → length stack ≡ 40
      → ids_of_uri uri ≡ ok ids
      → find Bytes_discrete uri types ≡ some type
      → arrivals 0 ≡ none
      → IsData old
      → hnd_attribute_get mapping types arrivals encode_var uri stack (some old)
        ≡ ok (print_result old, none)
  hnd_attribute_get-stale old h l e f a v =
      rw
        (
          hnd_attribute_get-eq-response_data (some old) h l e f,
          await_result-pending arrivals 9 40 buf old a,
          take-snprintf buf (print_result old) 40 (print_result-IsData old v),
        )
        refl

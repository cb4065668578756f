-- ===== src/Client/Answer.antt =====
-- The writes of the response handler of `CoapClientGet` into the caller's buffer
-- (main/CoapClient.cpp): `strncpy` and the terminating 0, neither of which knows the buffer's size.
use matter_lwm2m_bridge.Base.{ℕ, zero, suc, ◌+◌, [], ◌∷◌, ltb, if◌then◌else◌, length, set, ◌==◌}
use matter_lwm2m_bridge.Text.{Bytes}
use matter_lwm2m_bridge.Client.State.{Buffer}

-- `buffer[i] = b`
unfoldable pub poke : ℕ → ℕ → Buffer → Buffer
poke i b m =
    if ltb i (length m.cells)
    then record m { cells = set m.cells i b }
    else record m { strayed = i ∷ m.strayed }

-- `n` zeros from position `i` on.
unfoldable pub pad : ℕ → ℕ → Buffer → Buffer
pad zero i m = m
pad (suc n) i m = pad n (i + 1) (poke i 0 m)

-- `strncpy(buffer + i, src, n)`: behind the first 0 of the source zeros follow.
unfoldable pub strncpy : Bytes → ℕ → ℕ → Buffer → Buffer
unfolding pad
strncpy src zero i m = m
strncpy [] (suc n) i m = pad (suc n) i m
strncpy (b ∷ src) (suc n) i m =
    let rest = strncpy src n (i + 1) (poke i b m) in if b == 0 then pad (suc n) i m else rest

-- What the handler does with a payload.
unfoldable pub write_answer : Bytes → Buffer → Buffer
write_answer payload m = poke (length payload) 0 (strncpy payload (length payload) 0 m)

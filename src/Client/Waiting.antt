-- ===== src/Client/Waiting.antt =====
-- The loop in which the client waits for a response.
use mathlib.Core.Path.{subst}
use matter_lwm2m_bridge.Base.{
  ℕ, zero, suc, ◌-◌, ◌<◌, ℤ, pos, negsuc, true, false, Option, none, some, List, [], ◌∷◌, ◌≡◌, refl,
  arith, Option-cases, Bool-cases, dec_lt, ◌⊎◌, sym, ap, ◌∙◌, inl, inr,
}
use matter_lwm2m_bridge.Client.Library.{Call, History, Response, Libcoap}
use matter_lwm2m_bridge.Client.State.{Client, Outcome, value, running, Step, ◌>>=◌, return}
use matter_lwm2m_bridge.Client.Ends.{EndsWith, EndsWith-bind, bind_value}
use matter_lwm2m_bridge.Client.Exchange.{
  Request, call_handler, deliver, next_wait, io_process, wait_loop,
}

-- One round of the waiting loop.
pub wait_loop_over :
    (lib : Libcoap) (q : Request) (fuel w : ℕ) (c : Client)
    → c.have_response ≡ true
    → wait_loop lib q (suc fuel) w c ≡ (value tt, c)
unfolding wait_loop
wait_loop_over lib q fuel w c e = ground arith

abbrev pub next_round : (ℕ → Step (Unit {0})) → Option ℕ → Step (Unit {0})
next_round go none = return tt
next_round go (some w) = go w

pub wait_loop_round :
    (lib : Libcoap) (q : Request) (fuel w : ℕ) (c : Client)
    → c.have_response ≡ false
    → wait_loop lib q (suc fuel) w c
      ≡ (io_process lib q >>= λ res. next_round (wait_loop lib q fuel) (next_wait res w)) c
unfolding wait_loop
wait_loop_round lib q fuel w c e = ground arith

-- The library's promise for a round in which no response arrives: some time passes.
abbrev pub TakesTime : Libcoap → Type 0
TakesTime lib =
    (t : History) (k : Option ℕ)
    → (lib.io_result t k 1000).1 ≡ []
    → (ms : ℕ) × ((lib.io_result t k 1000).0 ≡ pos (suc ms))

-- There is a handler, and it keeps the note that a response has arrived.
abbrev pub KeepsNote : Option (Response → Client → Option Client) → Type 0
KeepsNote none = ⊥
KeepsNote (some h) =
    (r : Response) (c c' : Client)
    → h r c ≡ some c'
    → c.have_response ≡ true
    → c'.have_response ≡ true

-- A step that is not still running, with `Q` where it goes on.
abbrev pub Halts : {A : Type 0} → (Client → Type 0) → Outcome A × Client → Type 0
Halts Q r = EndsWith (λ _. Unit {0}) (λ _. ⊥) Q r

abbrev Noted : Client → Type 0
Noted c = c.have_response ≡ true

module _ (lib : Libcoap) (q : Request) (keeps : KeepsNote q.handler) where
  call_handler-Halts : (r : Response) (c : Client) → Halts Noted (call_handler lib q r c)
  unfolding call_handler
  call_handler-Halts r c = elim (Option-cases q.handler) [
    | inl e ↦ absurd (subst KeepsNote e keeps)
    | inr (f, e) ↦ elim (Option-cases (f r (record c { have_response = true }))) [
      | inl e' ↦ ground arith
      | inr (c', e') ↦
          ground (arith, subst KeepsNote e keeps r (record c { have_response = true }) c' e' refl)
    ]
  ]

  deliver-Halts : (rs : List Response) (c : Client) → Noted c → Halts Noted (deliver lib q rs c)
  unfolding deliver
  deliver-Halts [] c h = h
  deliver-Halts (r ∷ rs) c h =
      EndsWith-bind (λ _. Unit {0}) (λ _. ⊥) (call_handler lib q r) (λ _. deliver lib q rs) Noted
        Noted c (call_handler-Halts r c) (λ _. deliver-Halts rs)

  -- A round is the handler's calls, and then the result.
  io_process_lem :
      (c : Client) (res : ℤ) (rs : List Response)
      → lib.io_result c.trace c.ctx 1000 ≡ (res, rs)
      → io_process lib q c
        ≡ (deliver lib q rs >>= λ _. return res)
            (record c { trace = Call.io_process c.ctx 1000 ∷ c.trace })
  unfolding io_process
  io_process_lem c res rs e = rw e

  io_process-Halts :
      (c : Client) (res : ℤ) (r : Response) (rs : List Response)
      → lib.io_result c.trace c.ctx 1000 ≡ (res, r ∷ rs)
      → Halts Noted (io_process lib q c)
  io_process-Halts c res r rs e =
      let c₁ : Client = record c { trace = Call.io_process c.ctx 1000 ∷ c.trace } in
      rw (io_process_lem c res (r ∷ rs) e) (
        EndsWith-bind (λ _. Unit {0}) (λ _. ⊥) (deliver lib q (r ∷ rs)) (λ _. return res) Noted
          Noted c₁
          (unfold deliver in
            EndsWith-bind (λ _. Unit {0}) (λ _. ⊥) (call_handler lib q r) (λ _. deliver lib q rs)
              Noted Noted c₁ (call_handler-Halts r c₁) (λ _. deliver-Halts rs))
          (λ _ c' h. h))

  wait_loop-Noted :
      (fuel w : ℕ) (c : Client)
      → Noted c
      → 0 < fuel
      → Halts (λ _. Unit {0}) (wait_loop lib q fuel w c)
  wait_loop-Noted zero w c h l = absurd (omega arith)
  wait_loop-Noted (suc fuel) w c h l = rw (wait_loop_over lib q fuel w c h) tt

  next_round-Noted :
      (fuel : ℕ) (n : Option ℕ) (c : Client)
      → Noted c
      → 0 < fuel
      → Halts (λ _. Unit {0}) (next_round (wait_loop lib q fuel) n c)
  next_round-Noted fuel none c h l = tt
  next_round-Noted fuel (some w) c h l = wait_loop-Noted fuel w c h l

  next_wait_shorter :
      (ms w : ℕ)
      → 0 < w
      → (next_wait (pos (suc ms)) w ≡ none)
        ⊎ ((w' : ℕ) × (next_wait (pos (suc ms)) w ≡ some w') × (0 < w') × (w' < w))
  unfolding next_wait
  next_wait_shorter ms w p = elim (dec_lt (suc ms) w) [
    | yes l ↦ inr (w - suc ms, ground arith, omega arith, omega arith)
    | no l ↦ inl (ground arith)
  ]

  -- One round of the loop, by what the library reports.
  round-Halts :
      (fuel w : ℕ) (c : Client) (res : ℤ) (rs : List Response)
      → TakesTime lib
      → lib.io_result c.trace c.ctx 1000 ≡ (res, rs)
      → 0 < w
      → w < suc fuel
      → ((w' : ℕ) (c' : Client)
          → 0 < w'
          → w' < fuel
          → Halts (λ _. Unit {0}) (wait_loop lib q fuel w' c'))
      → Halts
          (λ _. Unit {0})
          ((io_process lib q >>= λ res. next_round (wait_loop lib q fuel) (next_wait res w)) c)
  round-Halts fuel w c res (r ∷ rs) time e p l rest =
      EndsWith-bind (λ _. Unit {0}) (λ _. ⊥) (io_process lib q) _ Noted (λ _. Unit {0}) c
        (io_process-Halts c res r rs e)
        (λ res' c' h. next_round-Noted fuel (next_wait res' w) c' h (omega arith))
  round-Halts fuel w c res [] time e p l rest =
      let (ms, took) = time c.trace c.ctx (rw e) in
      let is_ms : res ≡ pos (suc ms) = sym (ap (λ r. r.0) e) ∙ took in
      let c₁ : Client = record c { trace = Call.io_process c.ctx 1000 ∷ c.trace } in
      rw
        (bind_value (io_process lib q) (λ res. next_round (wait_loop lib q fuel) (next_wait res w))
          c c₁ res (io_process_lem c res [] e ∙ (unfold deliver in refl)))
        (rw is_ms (elim (next_wait_shorter ms w p) [
          | inl over ↦ rw over tt
          | inr (w', again, p', l') ↦ rw again (rest w' c₁ p' (omega arith))
        ]))

  -- The loop ends within as many rounds as there are milliseconds to wait, and one.
  pub wait_loop-Halts :
      (fuel w : ℕ) (c : Client)
      → TakesTime lib
      → 0 < w
      → w < fuel
      → Halts (λ _. Unit {0}) (wait_loop lib q fuel w c)
  wait_loop-Halts zero w c time p l = absurd (omega arith)
  wait_loop-Halts (suc fuel) w c time p l = elim (Bool-cases c.have_response) [
    | inl e ↦ wait_loop-Noted (suc fuel) w c e (omega arith)
    | inr e ↦ rw (wait_loop_round lib q fuel w c e) (
        round-Halts fuel w c _ _ time refl p l
          (λ w' c' p' l'. wait_loop-Halts fuel w' c' time p' l'))
  ]

-- The opposite: a round that reports an error, with no response.
abbrev pub ReportsErrors : Libcoap → Type 0
ReportsErrors lib =
    (t : History) (k : Option ℕ) → (n : ℕ) × (lib.io_result t k 1000 ≡ (negsuc n, []))

next_wait-negsuc : (n w : ℕ) → next_wait (negsuc n) w ≡ some w
unfolding next_wait
next_wait-negsuc n w = refl

module _ (lib : Libcoap) (q : Request) where
  -- A library that reports an error in each round keeps the loop running for ever: an error does not
  -- shorten the time to wait, so no number of rounds is enough.
  pub wait_loop-running :
      (fuel w : ℕ) (c : Client)
      → ReportsErrors lib
      → c.have_response ≡ false
      → (wait_loop lib q fuel w c).0 ≡ running
  wait_loop-running zero w c errors h = unfold wait_loop in refl
  wait_loop-running (suc fuel) w c errors h =
      let (n, e) = errors c.trace c.ctx in
      let c₁ : Client = record c { trace = Call.io_process c.ctx 1000 ∷ c.trace } in
      let quiet : io_process lib q c ≡ (value (negsuc n), c₁) = unfold io_process deliver in rw e in
      rw (wait_loop_round lib q fuel w c h) (
        rw
          (bind_value (io_process lib q)
            (λ res. next_round (wait_loop lib q fuel) (next_wait res w)) c c₁ (negsuc n) quiet)
          (rw (next_wait-negsuc n w) (wait_loop-running fuel w c₁ errors h)))

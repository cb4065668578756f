-- ===== src/Client/Storing.antt =====
-- The five loaders and the answering GET of main/CoapClient.cpp when all goes well: what the server
-- sends ends up where the function puts it.
use matter_lwm2m_bridge.Base.{
  ℕ, suc, ◌≡◌, refl, pos, true, false, Option, none, some, [], ◌∷◌, Option-cases, inl, inr,
}
use matter_lwm2m_bridge.Text.{Bytes}
use matter_lwm2m_bridge.Client.Library.{Call, Response, Libcoap}
use matter_lwm2m_bridge.Client.State.{
  Buffer, Client, Documents, Outcome, value, finish, threw, running, return, Run, returned,
  terminated, looping,
}
use matter_lwm2m_bridge.Client.Ends.{bind_value}
use matter_lwm2m_bridge.Client.Exchange.{
  Request, call_handler, deliver, io_process, next_wait, wait_loop, await_response, request,
  converse, finish_block, conclude, exchange,
}
use matter_lwm2m_bridge.Client.Waiting.{wait_loop_round, wait_loop_over, next_round}
use matter_lwm2m_bridge.Client.Serving.{
  IsServing, Succeeds, IsUntouched, Succeeds-bind, request-Succeeds,
}

-- The function returns, with these documents and this buffer.
abbrev pub Gives : Documents → Buffer → Run → Type 0
Gives d b (returned v c) = (c.documents ≡ d) × (c.answer ≡ b)
Gives d b (terminated c) = ⊥
Gives d b (looping c) = ⊥

-- The response has been handled: the documents and the buffer are these.
abbrev pub IsReceived : Documents → Buffer → Client → Type 0
IsReceived d' b' c = (c.have_response ≡ true) × (c.documents ≡ d') × (c.answer ≡ b')

conclude-Gives :
    (d : Documents) (b : Buffer) (r : Outcome (Unit {0}) × Client)
    → Succeeds (IsReceived d b) r
    → Gives d b (conclude r)
unfolding conclude finish_block
conclude-Gives d b (value _, c) (_, hd, hb) = (hd, hb)
conclude-Gives d b (finish, c) h = absurd h
conclude-Gives d b (threw, c) h = absurd h
conclude-Gives d b (running, c) h = absurd h

module _ (lib : Libcoap) (q : Request) (r : Response) (ok_lib : IsServing lib r) (d : Documents)
    (b : Buffer) where
  -- What the handler makes of the response and of what was there before.
  abbrev pub Receives : Documents → Buffer → Type 0
  Receives d' b' =
      (c : Client)
      → (c.have_response ≡ true) × (c.documents ≡ d) × (c.answer ≡ b)
      → (h : Response → Client → Option Client) × (c' : Client) × (q.handler ≡ some h)
        × (h r c ≡ some c')
        × IsReceived d' b' c'

  module _ (d' : Documents) (b' : Buffer) (receives : Receives d' b') where
    call_handler_lem :
        (c c' : Client) (h : Response → Client → Option Client)
        → q.handler ≡ some h
        → h r (record c { have_response = true }) ≡ some c'
        → call_handler lib q r c ≡ (value tt, c')
    unfolding call_handler
    call_handler_lem c c' h e f = rw (e, f, call_handler) refl

    deliver_one :
        (c c' : Client)
        → call_handler lib q r c ≡ (value tt, c')
        → deliver lib q (r ∷ []) c ≡ (value tt, c')
    unfolding deliver
    deliver_one c c' e = bind_value (call_handler lib q r) (λ _. deliver lib q []) c c' tt e

    io_process-Receives :
        (c : Client)
        → IsUntouched d b c
        → (ms : ℕ) × (c' : Client) × (io_process lib q c ≡ (value (pos ms), c'))
          × IsReceived d' b' c'
    unfolding io_process
    io_process-Receives c (_, hd, hb) =
        let (ms, io) = ok_lib.answers c.trace c.ctx in
        let c₁ : Client = record c { trace = Call.io_process c.ctx 1000 ∷ c.trace } in
        let (h, c', handler, result, received) =
          receives (record c₁ { have_response = true }) (refl, hd, hb) in
        let delivered = deliver_one c₁ c' (call_handler_lem c₁ c' h handler result) in
        (
          ms,
          c',
          rw (io, bind_value (deliver lib q (r ∷ [])) (λ _. return (pos ms)) c₁ c' tt delivered)
              refl,
          received,
        )

    wait_loop-Receives :
        (fuel w : ℕ) (c : Client)
        → IsUntouched d b c
        → Succeeds (IsReceived d' b') (wait_loop lib q (suc (suc fuel)) w c)
    wait_loop-Receives fuel w c h =
        let (ms, c', io, received) = io_process-Receives c h in
        rw
          (
            wait_loop_round lib q (suc fuel) w c h.0,
            bind_value (io_process lib q)
                (λ res. next_round (wait_loop lib q (suc fuel)) (next_wait res w)) c c' (pos ms) io,
          )
          (elim (Option-cases (next_wait (pos ms) w)) [
            | inl e ↦ rw e received
            | inr (w', e) ↦ rw (e, wait_loop_over lib q fuel w' c' received.0) received
          ])

    converse-Receives :
        (fuel : ℕ) (u : Bytes) (c : Client)
        → q.payload ≡ none
        → q.options_failed (pos 0) ≡ false
        → q.waits ≡ true
        → IsUntouched d b c
        → Succeeds (IsReceived d' b') (converse lib q (suc (suc fuel)) u c)
    unfolding converse await_response wait_loop
    converse-Receives fuel u c e f w h =
        Succeeds-bind (request lib q u) (λ _. await_response lib q (suc (suc fuel)))
          (IsUntouched d b) (IsReceived d' b') c (request-Succeeds lib q r ok_lib d b u c e f h)
          (λ _ c₁ h₁. rw w (wait_loop-Receives fuel _ _ h₁))

    pub exchange-Gives :
        (fuel : ℕ) (u : Bytes) (c : Client)
        → q.payload ≡ none
        → q.options_failed (pos 0) ≡ false
        → q.waits ≡ true
        → IsUntouched d b c
        → Gives d' b' (exchange lib q (suc (suc fuel)) u c)
    unfolding exchange
    exchange-Gives fuel u c e f w h = conclude-Gives d' b' _ (converse-Receives fuel u _ e f w h)

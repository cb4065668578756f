-- ===== src/Client/Steps.antt =====
-- Each step of an exchange in main/CoapClient.cpp keeps account of what is held open.
use mathlib.Core.Path.{subst}
use matter_lwm2m_bridge.Base.{
  ℕ, zero, suc, ◌+◌, ◌*◌, true, Option, none, some, List, [], ◌∷◌, arith, Option-cases, Bool-cases,
  inl, inr,
}
use matter_lwm2m_bridge.Text.{Bytes}
use matter_lwm2m_bridge.Client.Library.{Call, Uri, Response, Libcoap}
use matter_lwm2m_bridge.Client.State.{Client, return}
use matter_lwm2m_bridge.Client.Exchange.{
  Request, parse_uri, resolve_address, create_context, choose_block_mode, create_session,
  register_handlers, create_pdu, add_options, add_payload, send_pdu, call_handler, deliver,
  next_wait, io_process, wait_loop, await_response, request, converse,
}
use matter_lwm2m_bridge.Client.Waiting.{wait_loop_over, next_round, wait_loop_round}
use matter_lwm2m_bridge.Client.Holding.{
  Holds, Ends, Ends-bind, IsTame, BeforeContext, BeforeSession,
}

module _ (lib : Libcoap) (q : Request) where
  parse_uri-Ends :
      (u : Bytes) (c : Client) → BeforeContext c → Ends BeforeContext (parse_uri lib q u c)
  unfolding parse_uri
  parse_uri-Ends u c h = ground arith

  resolve_address-Ends :
      (u : Uri) (c : Client) → BeforeContext c → Ends BeforeContext (resolve_address lib q u c)
  unfolding resolve_address
  resolve_address-Ends u c h = ground arith

  create_context-Ends : (c : Client) → BeforeContext c → Ends BeforeSession (create_context lib q c)
  unfolding create_context
  create_context-Ends c h = ground arith

  choose_block_mode-Ends :
      (c : Client) → BeforeSession c → Ends BeforeSession (choose_block_mode lib q c)
  unfolding choose_block_mode
  choose_block_mode-Ends c h = ground arith

  create_session-Ends :
      (d : ℕ) (c : Client) → BeforeSession c → Ends (Holds 1) (create_session lib q d c)
  unfolding create_session
  create_session-Ends d c h = ground arith

  register_handlers-Ends : (c : Client) → Holds 1 c → Ends (Holds 1) (register_handlers lib q c)
  unfolding register_handlers
  register_handlers-Ends c h = ground arith

  create_pdu-Ends : (c : Client) → Holds 1 c → Ends (Holds 1) (create_pdu lib q c)
  unfolding create_pdu
  create_pdu-Ends c h = ground arith

  add_options-Ends :
      (u : Uri) (d p : ℕ) (c : Client) → Holds 1 c → Ends (Holds 1) (add_options lib q u d p c)
  unfolding add_options
  add_options-Ends u d p c h = ground arith

  add_payload-Ends : (p : ℕ) (c : Client) → Holds 1 c → Ends (Holds 1) (add_payload lib q p c)
  unfolding add_payload
  add_payload-Ends p c h = ground arith

  send_pdu-Ends : (p : ℕ) (c : Client) → Holds 1 c → Ends (Holds 1) (send_pdu lib q p c)
  unfolding send_pdu
  send_pdu-Ends p c h = ground arith

  module _ (tame : IsTame q.handler) where
    call_handler-Ends :
        (r : Response) (c : Client) → Holds 1 c → Ends (Holds 1) (call_handler lib q r c)
    unfolding call_handler
    call_handler-Ends r c h = elim (Option-cases q.handler) [
      | inl e ↦ rw (e, call_handler) h
      | inr (f, e) ↦ elim (Option-cases (f r (record c { have_response = true }))) [
        | inl e' ↦ ground arith
        | inr (c', e') ↦
            ground (arith, subst IsTame e tame r (record c { have_response = true }) c' e')
      ]
    ]

    deliver-Ends :
        (rs : List (Response)) (c : Client) → Holds 1 c → Ends (Holds 1) (deliver lib q rs c)
    unfolding deliver
    deliver-Ends [] c h = h
    deliver-Ends (r ∷ rs) c h =
        Ends-bind (call_handler lib q r) (λ _. deliver lib q rs) (Holds 1) (Holds 1) c
          (call_handler-Ends r c h) (λ _. deliver-Ends rs)

    io_process-Ends : (c : Client) → Holds 1 c → Ends (Holds 1) (io_process lib q c)
    unfolding io_process
    io_process-Ends c h =
        let (res, rs) = lib.io_result c.trace c.ctx 1000 in
        let c₁ : Client = record c { trace = Call.io_process c.ctx 1000 ∷ c.trace } in
        Ends-bind (deliver lib q rs) (λ _. return res) (Holds 1) (Holds 1) c₁
          (deliver-Ends rs c₁ (ground arith)) (λ _ c' h'. h')

    after_round :
        (fuel w : ℕ) (n : Option ℕ) (c : Client)
        → Holds 1 c
        → ((w' : ℕ) (c' : Client) → Holds 1 c' → Ends (Holds 1) (wait_loop lib q fuel w' c'))
        → Ends (Holds 1) (next_round (wait_loop lib q fuel) n c)
    after_round fuel w none c h k = h
    after_round fuel w (some w') c h k = k w' c h

    wait_loop-Ends :
        (fuel w : ℕ) (c : Client) → Holds 1 c → Ends (Holds 1) (wait_loop lib q fuel w c)
    wait_loop-Ends zero w c h = unfold wait_loop in h
    wait_loop-Ends (suc fuel) w c h = elim (Bool-cases c.have_response) [
      | inl e ↦ rw (wait_loop_over lib q fuel w c e) h
      | inr e ↦ rw (wait_loop_round lib q fuel w c e) (
          Ends-bind (io_process lib q) _ (Holds 1) (Holds 1) c (io_process-Ends c h)
            (λ res c' h'. after_round fuel w (next_wait res w) c' h' (wait_loop-Ends fuel)))
    ]

    await_response-Ends :
        (fuel : ℕ) (c : Client) → Holds 1 c → Ends (Holds 1) (await_response lib q fuel c)
    unfolding await_response
    await_response-Ends fuel c h = elim (Bool-cases q.waits) [
      | inl e ↦ ground (
        arith,
        wait_loop-Ends fuel ((lib.leisure_result c.trace c.session + 1) * 1000)
            (record c { trace = Call.session_get_default_leisure c.session ∷ c.trace })
            (ground arith),
      )
      | inr e ↦ ground arith
    ]

  request-Ends : (u : Bytes) (c : Client) → BeforeContext c → Ends (Holds 1) (request lib q u c)
  unfolding request
  request-Ends u c h =
      Ends-bind (parse_uri lib q u) _ BeforeContext (Holds 1) c (parse_uri-Ends u c h) (λ uri c₁ h₁.
        Ends-bind (resolve_address lib q uri) _ BeforeContext (Holds 1) c₁
          (resolve_address-Ends uri c₁ h₁)
          (λ dst c₂ h₂.
            Ends-bind (create_context lib q) _ BeforeSession (Holds 1) c₂
              (create_context-Ends c₂ h₂)
              (λ _ c₃ h₃.
                Ends-bind (choose_block_mode lib q) _ BeforeSession (Holds 1) c₃
                  (choose_block_mode-Ends c₃ h₃)
                  (λ _ c₄ h₄.
                    Ends-bind (create_session lib q dst) _ (Holds 1) (Holds 1) c₄
                      (create_session-Ends dst c₄ h₄)
                      (λ _ c₅ h₅.
                        Ends-bind (register_handlers lib q) _ (Holds 1) (Holds 1) c₅
                          (register_handlers-Ends c₅ h₅)
                          (λ _ c₆ h₆.
                            Ends-bind (create_pdu lib q) _ (Holds 1) (Holds 1) c₆
                              (create_pdu-Ends c₆ h₆)
                              (λ pdu c₇ h₇.
                                Ends-bind (add_options lib q uri dst pdu) _ (Holds 1) (Holds 1) c₇
                                  (add_options-Ends uri dst pdu c₇ h₇)
                                  (λ _ c₈ h₈.
                                    Ends-bind (add_payload lib q pdu) _ (Holds 1) (Holds 1) c₈
                                      (add_payload-Ends pdu c₈ h₈)
                                      (λ _ c₉ h₉. send_pdu-Ends pdu c₉ h₉)))))))))

  pub converse-Ends :
      (fuel : ℕ) (u : Bytes) (c : Client)
      → IsTame q.handler
      → BeforeContext c
      → Ends (Holds 1) (converse lib q fuel u c)
  unfolding converse
  converse-Ends fuel u c tame h =
      Ends-bind (request lib q u) _ (Holds 1) (Holds 1) c (request-Ends u c h)
        (λ _. await_response-Ends tame fuel)

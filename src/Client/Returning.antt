-- ===== src/Client/Returning.antt =====
-- The client returns: the functions that wait for a response stop waiting, and the others do not
-- wait.
use matter_lwm2m_bridge.Base.{
  ℕ, ◌+◌, ◌*◌, ◌^◌, ◌<◌, ◌≡◌, true, Option, none, some, ◌∷◌, arith, Bool-cases, inl, inr, All,
}
use matter_lwm2m_bridge.Text.{Bytes}
use matter_lwm2m_bridge.Client.Library.{Call, History, Uri, Libcoap}
use matter_lwm2m_bridge.Client.State.{
  Buffer, Client, Documents, Outcome, value, finish, threw, running, Step, ◌>>=◌, Run, returned,
  terminated, looping,
}
use matter_lwm2m_bridge.Client.Ends.{EndsWith-bind}
use matter_lwm2m_bridge.Client.Exchange.{
  Request, parse_uri, resolve_address, create_context, choose_block_mode, create_session,
  register_handlers, create_pdu, add_options, add_payload, send_pdu, await_response, request,
  converse, conclude, exchange,
}
use matter_lwm2m_bridge.Client.Requests.{
  Parsers, on_payload, on_answer, load_cluster_xml_file, load_sdf_model_file,
  load_sdf_mapping_lwm2m_file, load_sdf_mapping_matter_file, load_lwm2m_file, coap_client_get,
  coap_client_put, coap_client_get_answer, coap_client_put_payload, store_cluster_xml,
  store_sdf_model_file, store_sdf_mapping_lwm2m_file, store_sdf_mapping_matter_file,
  store_lwm2m_xml_file,
}
use matter_lwm2m_bridge.Client.Cleanup.{client_functions}
use matter_lwm2m_bridge.Client.Waiting.{TakesTime, KeepsNote, Halts, wait_loop-Halts}

abbrev Anything : Client → Type 0
Anything c = Unit {0}

Halts-bind :
    {A B : Type 0} (m : Step A) (f : A → Step B) (P Q : Client → Type 0) (c : Client)
    → Halts {A = A} P (m c)
    → ((a : A) (c' : Client) → P c' → Halts {A = B} Q (f a c'))
    → Halts {A = B} Q ((m >>= f) c)
Halts-bind = EndsWith-bind (λ _. Unit {0}) (λ _. ⊥)

module _ (lib : Libcoap) (q : Request) where
  parse_uri-Halts : (u : Bytes) (c : Client) → Halts Anything (parse_uri lib q u c)
  unfolding parse_uri
  parse_uri-Halts u c = ground arith

  resolve_address-Halts : (u : Uri) (c : Client) → Halts Anything (resolve_address lib q u c)
  unfolding resolve_address
  resolve_address-Halts u c = ground arith

  create_context-Halts : (c : Client) → Halts Anything (create_context lib q c)
  unfolding create_context
  create_context-Halts c = ground arith

  choose_block_mode-Halts : (c : Client) → Halts Anything (choose_block_mode lib q c)
  unfolding choose_block_mode
  choose_block_mode-Halts c = ground arith

  create_session-Halts : (d : ℕ) (c : Client) → Halts Anything (create_session lib q d c)
  unfolding create_session
  create_session-Halts d c = ground arith

  register_handlers-Halts : (c : Client) → Halts Anything (register_handlers lib q c)
  unfolding register_handlers
  register_handlers-Halts c = ground arith

  create_pdu-Halts : (c : Client) → Halts Anything (create_pdu lib q c)
  unfolding create_pdu
  create_pdu-Halts c = ground arith

  add_options-Halts : (u : Uri) (d p : ℕ) (c : Client) → Halts Anything (add_options lib q u d p c)
  unfolding add_options
  add_options-Halts u d p c = ground arith

  add_payload-Halts : (p : ℕ) (c : Client) → Halts Anything (add_payload lib q p c)
  unfolding add_payload
  add_payload-Halts p c = ground arith

  send_pdu-Halts : (p : ℕ) (c : Client) → Halts Anything (send_pdu lib q p c)
  unfolding send_pdu
  send_pdu-Halts p c = ground arith

  request-Halts : (u : Bytes) (c : Client) → Halts Anything (request lib q u c)
  unfolding request
  request-Halts u c =
      Halts-bind (parse_uri lib q u) _ Anything Anything c (parse_uri-Halts u c) (λ uri c₁ h₁.
        Halts-bind (resolve_address lib q uri) _ Anything Anything c₁ (resolve_address-Halts uri c₁)
          (λ dst c₂ h₂.
            Halts-bind (create_context lib q) _ Anything Anything c₂ (create_context-Halts c₂)
              (λ _ c₃ h₃.
                Halts-bind (choose_block_mode lib q) _ Anything Anything c₃
                  (choose_block_mode-Halts c₃)
                  (λ _ c₄ h₄.
                    Halts-bind (create_session lib q dst) _ Anything Anything c₄
                      (create_session-Halts dst c₄)
                      (λ _ c₅ h₅.
                        Halts-bind (register_handlers lib q) _ Anything Anything c₅
                          (register_handlers-Halts c₅)
                          (λ _ c₆ h₆.
                            Halts-bind (create_pdu lib q) _ Anything Anything c₆
                              (create_pdu-Halts c₆)
                              (λ pdu c₇ h₇.
                                Halts-bind (add_options lib q uri dst pdu) _ Anything Anything c₇
                                  (add_options-Halts uri dst pdu c₇)
                                  (λ _ c₈ h₈.
                                    Halts-bind (add_payload lib q pdu) _ Anything Anything c₈
                                      (add_payload-Halts pdu c₈)
                                      (λ _ c₉ h₉. send_pdu-Halts pdu c₉)))))))))

  -- The time to wait is that of the default leisure, which is a `uint16_t`, and one second.
  await_response-Halts :
      (fuel : ℕ) (c : Client)
      → (q.waits ≡ true → KeepsNote q.handler)
      → TakesTime lib
      → ((t : History) (s : Option ℕ) → lib.leisure_result t s < 2 ^ 16)
      → 65536000 < fuel
      → Halts Anything (await_response lib q fuel c)
  unfolding await_response
  await_response-Halts fuel c keeps time short l = elim (Bool-cases q.waits) [
    | inl e ↦ ground (
      arith,
      wait_loop-Halts lib q (keeps e) fuel ((lib.leisure_result c.trace c.session + 1) * 1000)
          (record c { trace = Call.session_get_default_leisure c.session ∷ c.trace }) time
          (omega arith) (omega (arith, short c.trace c.session)),
    )
    | inr e ↦ ground arith
  ]

-- The function comes to its end, if only by an exception.
abbrev pub Stops : Run → Type 0
Stops (returned r c) = Unit {0}
Stops (terminated c) = Unit {0}
Stops (looping c) = ⊥

conclude-Stops : (r : Outcome (Unit {0}) × Client) → Halts Anything r → Stops (conclude r)
unfolding conclude
conclude-Stops (value _, c) h = tt
conclude-Stops (finish, c) h = tt
conclude-Stops (threw, c) h = tt
conclude-Stops (running, c) h = absurd h

exchange-Stops :
    (lib : Libcoap) (q : Request) (fuel : ℕ) (u : Bytes) (c : Client)
    → (q.waits ≡ true → KeepsNote q.handler)
    → TakesTime lib
    → ((t : History) (s : Option ℕ) → lib.leisure_result t s < 2 ^ 16)
    → 65536000 < fuel
    → Stops (exchange lib q fuel u c)
unfolding exchange converse
exchange-Stops lib q fuel u c keeps time short l = conclude-Stops _ (
    Halts-bind (request lib q u) (λ _. await_response lib q fuel) Anything Anything _
      (request-Halts lib q u _) (λ _ c' _. await_response-Halts lib q fuel c' keeps time short l))

on_payload-KeepsNote :
    (store : Bytes → Documents → Option Documents) → KeepsNote (some (on_payload store))
on_payload-KeepsNote store none c c' e n = ground arith
on_payload-KeepsNote store (some payload) c c' e n = ground arith

on_answer-KeepsNote : KeepsNote (some on_answer)
on_answer-KeepsNote none c c' e n = ground arith
on_answer-KeepsNote (some payload) c c' e n = ground arith

-- Every function of the client comes to its end within 65,536,000 rounds of its loop, if each round
-- in which no response arrives reports some time as spent, and the library's default leisure is a
-- 16-bit number.
pub client_functions-Stops :
    (lib : Libcoap) (parsers : Parsers) (answer : Buffer) (bytes : Bytes) (size fuel : ℕ)
    (u : Bytes) (c : Client)
    → TakesTime lib
    → ((t : History) (s : Option ℕ) → lib.leisure_result t s < 2 ^ 16)
    → 65536000 < fuel
    → All (λ f. Stops (f fuel u c)) (client_functions lib parsers answer bytes size)
unfolding load_cluster_xml_file load_sdf_model_file load_sdf_mapping_lwm2m_file
    load_sdf_mapping_matter_file load_lwm2m_file coap_client_get coap_client_put
    coap_client_get_answer coap_client_put_payload
client_functions-Stops lib parsers answer bytes size fuel u c time short l = (
  exchange-Stops lib _ fuel u c (λ _. on_payload-KeepsNote (store_cluster_xml parsers)) time short
      l,
  (
    exchange-Stops lib _ fuel u c (λ _. on_payload-KeepsNote (store_sdf_model_file parsers)) time
        short l,
    (
      exchange-Stops lib _ fuel u c
          (λ _. on_payload-KeepsNote (store_sdf_mapping_lwm2m_file parsers)) time short l,
      (
        exchange-Stops lib _ fuel u c
            (λ _. on_payload-KeepsNote (store_sdf_mapping_matter_file parsers)) time short l,
        (
          exchange-Stops lib _ fuel u c (λ _. on_payload-KeepsNote (store_lwm2m_xml_file parsers))
              time short l,
          (
            exchange-Stops lib _ fuel u c (λ _ r c₁ c₂ e n. ground arith) time short l,
            (
              exchange-Stops lib _ fuel u c (λ e. cc) time short l,
              (
                exchange-Stops lib _ fuel u (record c { answer = answer })
                    (λ _. on_answer-KeepsNote) time short l,
                (exchange-Stops lib _ fuel u c (λ e. cc) time short l, tt),
              ),
            ),
          ),
        ),
      ),
    ),
  ),
)

-- ===== src/Client/Serving.antt =====
-- The requests of main/CoapClient.cpp over a library in which every call succeeds.
use matter_lwm2m_bridge.Base.{
  ℕ, ◌^◌, ◌≡◌, pos, false, Option, none, some, [], ◌∷◌, arith, Bool-cases, Option-cases, inl, inr,
  if◌then◌else◌,
}
use matter_lwm2m_bridge.Text.{Bytes}
use matter_lwm2m_bridge.Client.Library.{Call, History, Uri, Method, Response, Libcoap}
use matter_lwm2m_bridge.Client.State.{Buffer, Client, Documents, Outcome, Step, ◌>>=◌}
use matter_lwm2m_bridge.Client.Ends.{EndsWith, EndsWith-bind}
use matter_lwm2m_bridge.Client.Exchange.{
  Request, parse_uri, resolve_address, create_context, choose_block_mode, create_session,
  register_handlers, create_pdu, add_options, add_payload, send_pdu, request,
}

-- A library in which every call succeeds, and the first round of waiting brings one response.
pub record IsServing (lib : Libcoap) (response : Response) : Type 0 where
  pub splits : (t : History) (u : Bytes) → (lib.split_uri_result t u).0 ≡ pos 0
  pub resolves :
      (t : History) (h : Bytes) (p s : ℕ) → (a : ℕ) × (lib.resolve_result t h p s ≡ some a)
  pub makes_context : (t : History) → (k : ℕ) × (lib.context_result t ≡ some k)
  pub makes_session :
      (t : History) (k : Option ℕ) (d : ℕ) → (s : ℕ) × (lib.session_result t k d ≡ some s)
  pub makes_pdu :
      (t : History) (m : Method) (s : Option ℕ) → (p : ℕ) × (lib.pdu_result t m s ≡ some p)
  pub makes_options :
      (t : History) (u : Uri) (d o : Option ℕ) → (lib.options_result t u d o).0 ≡ pos 0
  pub adds_options : (t : History) (p o : ℕ) → lib.add_optlist_result t p o ≡ pos 1
  pub sends : (t : History) (s : Option ℕ) (p : ℕ) → (i : ℕ) × (lib.send_result t s p ≡ some i)
  pub answers :
      (t : History) (k : Option ℕ) → (ms : ℕ) × (lib.io_result t k 1000 ≡ (pos ms, response ∷ []))

-- A step that goes on.
abbrev pub Succeeds : {A : Type 0} → (Client → Type 0) → Outcome A × Client → Type 0
Succeeds Q r = EndsWith (λ _. ⊥) (λ _. ⊥) Q r

-- Nothing has been received: the documents and the buffer are those from before.
abbrev pub IsUntouched : Documents → Buffer → Client → Type 0
IsUntouched d b c = (c.have_response ≡ false) × (c.documents ≡ d) × (c.answer ≡ b)

pub Succeeds-bind :
    {A B : Type 0} (m : Step A) (f : A → Step B) (P Q : Client → Type 0) (c : Client)
    → Succeeds {A = A} P (m c)
    → ((x : A) (c' : Client) → P c' → Succeeds {A = B} Q (f x c'))
    → Succeeds {A = B} Q ((m >>= f) c)
Succeeds-bind = EndsWith-bind (λ _. ⊥) (λ _. ⊥)

module _ (lib : Libcoap) (q : Request) (r : Response) (ok_lib : IsServing lib r) (d : Documents)
    (b : Buffer) where
  parse_uri-Succeeds :
      (u : Bytes) (c : Client)
      → IsUntouched d b c
      → Succeeds (IsUntouched d b) (parse_uri lib q u c)
  unfolding parse_uri
  parse_uri-Succeeds u c h = rw (ok_lib.splits c.trace u, parse_uri) h

  resolve_address-Succeeds :
      (u : Uri) (c : Client)
      → IsUntouched d b c
      → Succeeds (IsUntouched d b) (resolve_address lib q u c)
  unfolding resolve_address
  resolve_address-Succeeds u c h =
      rw ((ok_lib.resolves c.trace u.host u.port (2 ^ u.scheme)).1, resolve_address) h

  create_context-Succeeds :
      (c : Client) → IsUntouched d b c → Succeeds (IsUntouched d b) (create_context lib q c)
  unfolding create_context
  create_context-Succeeds c h = rw ((ok_lib.makes_context c.trace).1, create_context) h

  choose_block_mode-Succeeds :
      (c : Client) → IsUntouched d b c → Succeeds (IsUntouched d b) (choose_block_mode lib q c)
  unfolding choose_block_mode
  choose_block_mode-Succeeds c h = elim (Bool-cases q.block_mode) [
    | inl e ↦ rw e h
    | inr e ↦ rw e h
  ]

  create_session-Succeeds :
      (a : ℕ) (c : Client)
      → IsUntouched d b c
      → Succeeds (IsUntouched d b) (create_session lib q a c)
  unfolding create_session
  create_session-Succeeds a c h = rw ((ok_lib.makes_session c.trace c.ctx a).1, create_session) h

  register_handlers-Succeeds :
      (c : Client) → IsUntouched d b c → Succeeds (IsUntouched d b) (register_handlers lib q c)
  unfolding register_handlers
  register_handlers-Succeeds c h = ground arith

  create_pdu-Succeeds :
      (c : Client) → IsUntouched d b c → Succeeds (IsUntouched d b) (create_pdu lib q c)
  unfolding create_pdu
  create_pdu-Succeeds c h = rw ((ok_lib.makes_pdu c.trace q.method c.session).1, create_pdu) h

  send_pdu-Succeeds :
      (p : ℕ) (c : Client) → IsUntouched d b c → Succeeds (IsUntouched d b) (send_pdu lib q p c)
  unfolding send_pdu
  send_pdu-Succeeds p c h =
      rw ((ok_lib.sends (Call.show_pdu p ∷ c.trace) c.session p).1, send_pdu) h

  add_payload-Succeeds :
      (p : ℕ) (c : Client)
      → q.payload ≡ none
      → IsUntouched d b c
      → Succeeds (IsUntouched d b) (add_payload lib q p c)
  unfolding add_payload
  add_payload-Succeeds p c e h = rw (e, add_payload) h

  add_options-Succeeds :
      (u : Uri) (a p : ℕ) (c : Client)
      → q.options_failed (pos 0) ≡ false
      → IsUntouched d b c
      → Succeeds (IsUntouched d b) (add_options lib q u a p c)
  unfolding add_options
  add_options-Succeeds u a p c e h =
      let to = (if q.pass_destination then some a else none) in
      let made = ok_lib.makes_options c.trace u to c.optlist in
      elim (Option-cases (lib.options_result c.trace u to c.optlist).1) [
        | inl n ↦ ground (arith, e, made, n)
        | inr (o, n) ↦
            ground
              (arith, e, made, n, ok_lib.adds_options (Call.uri_into_options u to ∷ c.trace) p o)
      ]

  pub request-Succeeds :
      (u : Bytes) (c : Client)
      → q.payload ≡ none
      → q.options_failed (pos 0) ≡ false
      → IsUntouched d b c
      → Succeeds (IsUntouched d b) (request lib q u c)
  unfolding request
  request-Succeeds u c e f h =
      let N = IsUntouched d b in
      Succeeds-bind (parse_uri lib q u) _ N N c (parse_uri-Succeeds u c h) (λ uri c₁ h₁.
        Succeeds-bind (resolve_address lib q uri) _ N N c₁ (resolve_address-Succeeds uri c₁ h₁)
          (λ dst c₂ h₂.
            Succeeds-bind (create_context lib q) _ N N c₂ (create_context-Succeeds c₂ h₂)
              (λ _ c₃ h₃.
                Succeeds-bind (choose_block_mode lib q) _ N N c₃ (choose_block_mode-Succeeds c₃ h₃)
                  (λ _ c₄ h₄.
                    Succeeds-bind (create_session lib q dst) _ N N c₄
                      (create_session-Succeeds dst c₄ h₄)
                      (λ _ c₅ h₅.
                        Succeeds-bind (register_handlers lib q) _ N N c₅
                          (register_handlers-Succeeds c₅ h₅)
                          (λ _ c₆ h₆.
                            Succeeds-bind (create_pdu lib q) _ N N c₆ (create_pdu-Succeeds c₆ h₆)
                              (λ pdu c₇ h₇.
                                Succeeds-bind (add_options lib q uri dst pdu) _ N N c₇
                                  (add_options-Succeeds uri dst pdu c₇ f h₇)
                                  (λ _ c₈ h₈.
                                    Succeeds-bind (add_payload lib q pdu) _ N N c₈
                                      (add_payload-Succeeds pdu c₈ e h₈)
                                      (λ _ c₉ h₉. send_pdu-Succeeds pdu c₉ h₉)))))))))

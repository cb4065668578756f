-- ===== src/Client/Exchange.antt =====
-- One exchange with a CoAP server: the body that the nine functions of main/CoapClient.cpp share.
-- They differ in the request code, the block mode, the handler, the address handed to the options,
-- the test of the options' status, the payload, and in waiting for the response or not; `Request`
-- holds these differences.

use matter_lwm2m_bridge.Base.{
  ℕ, zero, suc, ◌+◌, ◌-◌, ◌*◌, ◌^◌, ℤ, pos, negsuc, Bool, true, false, Option, none, some, List, [],
  ◌∷◌, ltb, leb, ◌==◌, if◌then◌else◌,
}
use matter_lwm2m_bridge.Text.{Bytes}
use matter_lwm2m_bridge.Client.Library.{Call, Uri, Method, Response, Libcoap}
use matter_lwm2m_bridge.Client.State.{
  Client, Outcome, value, finish, threw, running, Step, ◌>>=◌, ◌>>◌, return, note, Run, returned,
  terminated, looping, exit_failure,
}

pub record Request : Type 0 where
  pub method : Method
  -- `coap_context_set_block_mode` is called.
  pub block_mode : Bool
  -- `coap_session_set_app_data` is called.
  pub app_data : Bool
  -- The response handler behind `have_response = 1`, if one is registered; `none` is an exception.
  pub handler : Option (Response → Client → Option (Client))
  -- `coap_uri_into_options` is given the destination.
  pub pass_destination : Bool
  -- The status of `coap_uri_into_options` with which the function gives up.
  pub options_failed : ℤ → Bool
  pub payload : Option Bytes
  -- The function waits for the response.
  pub waits : Bool

-- What stands behind the label `finish`.
unfoldable pub finish_block : Client → Client
finish_block c = record c {
  have_response = false;
  optlist = none;
  session = none;
  ctx = none;
  trace =
      Call.cleanup
      ∷ Call.free_context c.ctx
      ∷ Call.session_release c.session
      ∷ Call.delete_optlist c.optlist
      ∷ c.trace;
}

-- The code behind the label is reached by every way but an exception. The variable `result` is set
-- once, to `EXIT_FAILURE`, and is what the function returns.
unfoldable pub conclude : Outcome (Unit {0}) × Client → Run
unfolding finish_block
conclude (value _, c) = returned exit_failure (finish_block c)
conclude (finish, c) = returned exit_failure (finish_block c)
conclude (threw, c) = terminated c
conclude (running, c) = looping c

-- What a result of `coap_io_process` leaves of the time to wait; `none` is the time-out. A negative
-- result changes nothing, and neither does any result when `wait_ms` is 0.
unfoldable pub next_wait : ℤ → ℕ → Option ℕ
next_wait (negsuc _) wait_ms = some wait_ms
next_wait (pos ms) wait_ms =
    if ltb 0 wait_ms then (if leb wait_ms ms then none else some (wait_ms - ms)) else some wait_ms

module _ (lib : Libcoap) (q : Request) where
  open lib use {
    split_uri_result, resolve_result, context_result, session_result, pdu_result, options_result,
    add_optlist_result, add_data_result, send_result, leisure_result, io_result,
  }

  -- `coap_split_uri`, given up at a status other than 0.
  unfoldable pub parse_uri : Bytes → Step Uri
  parse_uri coap_uri c =
      let (len, uri) = split_uri_result c.trace coap_uri in
      let c' = record c { trace = Call.split_uri coap_uri ∷ c.trace } in
      elim len [ pos zero ↦ (value uri, c') | _ ↦ (finish, c') ]

  -- `resolve_address`: the first address of the list; `1 << uri.scheme` selects the scheme.
  unfoldable pub resolve_address : Uri → Step ℕ
  resolve_address uri c =
      let dst = resolve_result c.trace uri.host uri.port (2 ^ uri.scheme) in
      let c' = record c {
        trace =
            Call.free_address_info
            ∷ Call.resolve_address_info uri.host uri.port (2 ^ uri.scheme)
            ∷ c.trace;
      } in
      elim dst [ none ↦ (finish, c') | some d ↦ (value d, c') ]

  -- The context is kept in the global `ctx`, also when it is null.
  unfoldable pub create_context : Step (Unit {0})
  create_context c =
      let made = context_result c.trace in
      let c' = record c { ctx = made; trace = Call.new_context made ∷ c.trace } in
      elim made [ none ↦ (finish, c') | some _ ↦ (value tt, c') ]

  unfoldable pub choose_block_mode : Step (Unit {0})
  choose_block_mode c = if q.block_mode then note (Call.set_block_mode c.ctx) c else (value tt, c)

  unfoldable pub create_session : ℕ → Step (Unit {0})
  create_session dst c =
      let made = session_result c.trace c.ctx dst in
      let c' = record c {
        session = made;
        trace = Call.new_client_session c.ctx dst made ∷ c.trace;
      } in
      elim made [ none ↦ (finish, c') | some _ ↦ (value tt, c') ]

  unfoldable pub register_handlers : Step (Unit {0})
  register_handlers c =
      let c₁ =
        (if q.app_data
          then record c { trace = Call.session_set_app_data c.session ∷ c.trace }
          else c) in
      elim q.handler [
        | none ↦ (value tt, c₁)
        | some _ ↦ (
          value tt,
          record c₁ {
            trace =
                Call.register_nack_handler c₁.ctx
                ∷ Call.register_response_handler c₁.ctx
                ∷ c₁.trace;
          },
        )
      ]

  unfoldable pub create_pdu : Step ℕ
  create_pdu c =
      let made = pdu_result c.trace q.method c.session in
      let c' = record c { trace = Call.pdu_init q.method c.session made ∷ c.trace } in
      elim made [ none ↦ (finish, c') | some p ↦ (value p, c') ]

  -- `coap_uri_into_options` works on the global `optlist`; a list that is not null goes into the PDU.
  unfoldable pub add_options : Uri → ℕ → ℕ → Step (Unit {0})
  add_options uri dst pdu c =
      let to = (if q.pass_destination then some dst else none) in
      let (len, options) = options_result c.trace uri to c.optlist in
      let c₁ = record c { optlist = options; trace = Call.uri_into_options uri to ∷ c.trace } in
      if q.options_failed len then (finish, c₁) else elim options [
        | none ↦ (value tt, c₁)
        | some o ↦
            let c₂ = record c₁ { trace = Call.add_optlist_pdu pdu o ∷ c₁.trace } in
            elim (add_optlist_result c₁.trace pdu o) [
              | pos (suc zero) ↦ (value tt, c₂)
              | _ ↦ (finish, c₂)
            ]
      ]

  unfoldable pub add_payload : ℕ → Step (Unit {0})
  add_payload pdu c = elim q.payload [
    | none ↦ (value tt, c)
    | some bytes ↦
        let len = add_data_result c.trace pdu bytes in
        let c' = record c { trace = Call.add_data pdu bytes ∷ c.trace } in
        if len == 0 then (finish, c') else (value tt, c')
  ]

  unfoldable pub send_pdu : ℕ → Step (Unit {0})
  send_pdu pdu c =
      let shown = record c { trace = Call.show_pdu pdu ∷ c.trace } in
      let mid = send_result shown.trace shown.session pdu in
      let c' = record shown { trace = Call.send shown.session pdu ∷ shown.trace } in
      elim mid [ none ↦ (finish, c') | some _ ↦ (value tt, c') ]

  -- The handler notes the response before it looks at the payload.
  unfoldable pub call_handler : Response → Step (Unit {0})
  call_handler r c = elim q.handler [
    | none ↦ (value tt, c)
    | some h ↦ elim (h r (record c { have_response = true })) [
      | none ↦ (threw, record c { have_response = true })
      | some c' ↦ (value tt, c')
    ]
  ]

  unfoldable pub deliver : List Response → Step (Unit {0})
  deliver [] = return tt
  deliver (r ∷ rs) = do call_handler r; deliver rs

  -- `coap_io_process(ctx, 1000)`, with the responses that arrive meanwhile.
  unfoldable pub io_process : Step ℤ
  io_process c =
      let (res, responses) = io_result c.trace c.ctx 1000 in
      (do deliver responses; return res) (record c { trace = Call.io_process c.ctx 1000 ∷ c.trace })

  -- The `while (have_response == 0)` loop.
  unfoldable pub wait_loop : ℕ → ℕ → Step (Unit {0})
  wait_loop zero wait_ms c = (running, c)
  wait_loop (suc fuel) wait_ms c = elim c.have_response [
    | true ↦ (value tt, c)
    | false ↦
        (do
          res ← io_process
          elim (next_wait res wait_ms) [
            | none ↦ return tt
            | some wait_ms' ↦ wait_loop fuel wait_ms'
          ])
          c
  ]

  unfoldable pub await_response : ℕ → Step (Unit {0})
  await_response fuel c =
      if q.waits
      then wait_loop fuel ((leisure_result c.trace c.session + 1) * 1000)
          (record c { trace = Call.session_get_default_leisure c.session ∷ c.trace })
      else (value tt, c)

  -- Everything between `coap_startup` and the wait.
  unfoldable pub request : Bytes → Step (Unit {0})
  request coap_uri = do
    uri ← parse_uri coap_uri
    dst ← resolve_address uri
    create_context
    choose_block_mode
    create_session dst
    register_handlers
    pdu ← create_pdu
    add_options uri dst pdu
    add_payload pdu
    send_pdu pdu

  -- Everything between `coap_startup` and the label `finish`.
  unfoldable pub converse : ℕ → Bytes → Step (Unit {0})
  converse fuel coap_uri = do request coap_uri; await_response fuel

  -- `session` is a local variable and begins as null.
  unfoldable pub exchange : ℕ → Bytes → Client → Run
  unfolding conclude
  exchange fuel client_uri c =
      conclude
        (converse fuel client_uri (record c { session = none; trace = Call.startup ∷ c.trace }))

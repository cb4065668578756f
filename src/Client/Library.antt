-- ===== src/Client/Library.antt =====
-- What the client uses of libcoap, which is a library beside the source. Each call is answered by a
-- function of all the calls made before it, so nothing is assumed of the network or of hidden state.
use matter_lwm2m_bridge.Base.{ℕ, ℤ, Option, List}
use matter_lwm2m_bridge.Text.{Bytes}

-- The parts of a URI that `coap_split_uri` finds.
pub record Uri : Type 0 where
  pub host : Bytes
  pub port : ℕ
  pub scheme : ℕ
  pub path : Bytes

-- The request codes that the client sends.
pub data Method : Type 0 where
  get put : Method

-- A call of the library with what it was given and the object that it returned. An object is known
-- by a number, its address.
pub data Call : Type 0 where
  startup : Call
  split_uri : Bytes → Call
  resolve_address_info : Bytes → ℕ → ℕ → Call
  free_address_info : Call
  new_context : Option ℕ → Call
  set_block_mode : Option ℕ → Call
  new_client_session : Option ℕ → ℕ → Option ℕ → Call
  session_set_app_data : Option ℕ → Call
  register_response_handler : Option ℕ → Call
  register_nack_handler : Option ℕ → Call
  pdu_init : Method → Option ℕ → Option ℕ → Call
  uri_into_options : Uri → Option ℕ → Call
  add_optlist_pdu : ℕ → ℕ → Call
  add_data : ℕ → Bytes → Call
  show_pdu : ℕ → Call
  send : Option ℕ → ℕ → Call
  session_get_default_leisure : Option ℕ → Call
  io_process : Option ℕ → ℕ → Call
  delete_optlist : Option ℕ → Call
  session_release : Option ℕ → Call
  free_context : Option ℕ → Call
  cleanup : Call

-- The calls made so far, the last one first.
abbrev pub History : Type 0
History = List Call

-- A response that the library hands to the registered handler; `none` is one for which
-- `coap_get_data` and `coap_get_data_large` return 0.
abbrev pub Response : Type 0
Response = Option Bytes

pub record Libcoap : Type 0 where
  -- The status and the parts.
  pub split_uri_result : History → Bytes → ℤ × Uri
  -- The first address of the list, `none` for an empty list.
  pub resolve_result : History → Bytes → ℕ → ℕ → Option ℕ
  pub context_result : History → Option ℕ
  pub session_result : History → Option ℕ → ℕ → Option ℕ
  pub pdu_result : History → Method → Option ℕ → Option ℕ
  -- The status, and the option list made from the one that was given.
  pub options_result : History → Uri → Option ℕ → Option ℕ → ℤ × Option ℕ
  pub add_optlist_result : History → ℕ → ℕ → ℤ
  pub add_data_result : History → ℕ → Bytes → ℕ
  -- The message id, `none` for `COAP_INVALID_MID`.
  pub send_result : History → Option ℕ → ℕ → Option ℕ
  pub leisure_result : History → Option ℕ → ℕ
  -- The milliseconds spent or -1, and the responses handed to the handler meanwhile.
  pub io_result : History → Option ℕ → ℕ → ℤ × List Response

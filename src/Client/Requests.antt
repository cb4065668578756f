-- ===== src/Client/Requests.antt =====
-- The nine functions of main/CoapClient.cpp: five that load a file into a global, and GET and PUT
-- requests without and with a payload.
use mathlib.Core.Option
use matter_lwm2m_bridge.Base.{
  ℕ, zero, ℤ, pos, negsuc, Bool, true, false, Option, none, some, [], ◌∷◌, ◌++◌, take,
}
use matter_lwm2m_bridge.Text.{Bytes, codes}
use matter_lwm2m_bridge.Json.{Json, Xml}
use matter_lwm2m_bridge.Client.Library.{Method, Response, Libcoap}
use matter_lwm2m_bridge.Client.State.{Buffer, Client, Documents, Run}
use matter_lwm2m_bridge.Client.Answer.{write_answer}
use matter_lwm2m_bridge.Client.Exchange.{Request, exchange}

-- `nlohmann::json::parse`, with `none` for the exception that it throws, and
-- `pugi::xml_document::load_buffer`, which keeps what it could read.
pub record Parsers : Type 0 where
  pub parse : Bytes → Option Json
  pub load_buffer : Bytes → Xml

-- `if (len)` and `if (len < 0)` behind `coap_uri_into_options`.
abbrev pub is_nonzero : ℤ → Bool
is_nonzero (pos zero) = false
is_nonzero _ = true

abbrev pub is_negative : ℤ → Bool
is_negative (pos _) = false
is_negative (negsuc _) = true

-- A handler stores a payload in a global, if the response has one; `store` is `none` where the parser
-- throws.
abbrev pub on_payload : (Bytes → Documents → Option Documents) → Response → Client → Option Client
on_payload store none c = some c
on_payload store (some payload) c = elim (store payload c.documents) [
  | none ↦ none
  | some d ↦ some (record c { documents = d })
]

-- A GET request for a file, in large blocks.
abbrev pub load_request : (Bytes → Documents → Option Documents) → Request
load_request store = record {
  method = Method.get;
  block_mode = true;
  app_data = false;
  handler = some (on_payload store);
  pass_destination = true;
  options_failed = is_nonzero;
  payload = none;
  waits = true;
}

-- The handler of `CoapClientGet` without a buffer only prints the payload.
abbrev pub get_request : Request
get_request = record {
  method = Method.get;
  block_mode = true;
  app_data = false;
  handler = some (λ r c. some c);
  pass_destination = false;
  options_failed = is_nonzero;
  payload = none;
  waits = true;
}

abbrev pub on_answer : Response → Client → Option Client
on_answer none c = some c
on_answer (some payload) c = some (record c { answer = write_answer payload c.answer })

abbrev pub get_answer_request : Request
get_answer_request = record {
  method = Method.get;
  block_mode = true;
  app_data = true;
  handler = some on_answer;
  pass_destination = false;
  options_failed = is_nonzero;
  payload = none;
  waits = true;
}

-- A PUT request registers no handler and does not wait.
abbrev pub put_request : Bytes → Request
put_request payload = record {
  method = Method.put;
  block_mode = false;
  app_data = false;
  handler = none;
  pass_destination = false;
  options_failed = is_negative;
  payload = some payload;
  waits = false;
}

-- `sizeof(message)` is the size of a pointer, 4 on the board: the three characters of the literal
-- and its terminating 0.
abbrev pub off_message : Bytes
off_message = codes "off" ++ 0 ∷ []

module _ (parsers : Parsers) where
  open parsers use {parse, load_buffer}

  -- What the handlers of the five loaders do with a payload. The JSON ones replace the global only
  -- where the parser returns.
  abbrev pub store_cluster_xml : Bytes → Documents → Option Documents
  store_cluster_xml payload d = some (record d { cluster_xml = load_buffer payload })

  abbrev pub store_sdf_model_file : Bytes → Documents → Option Documents
  store_sdf_model_file payload d = Option.map (λ j. record d { sdf_model_file = j }) (parse payload)

  abbrev pub store_sdf_mapping_lwm2m_file : Bytes → Documents → Option Documents
  store_sdf_mapping_lwm2m_file payload d =
      Option.map (λ j. record d { sdf_mapping_lwm2m_file = j }) (parse payload)

  abbrev pub store_sdf_mapping_matter_file : Bytes → Documents → Option Documents
  store_sdf_mapping_matter_file payload d =
      Option.map (λ j. record d { sdf_mapping_matter_file = j }) (parse payload)

  abbrev pub store_lwm2m_xml_file : Bytes → Documents → Option Documents
  store_lwm2m_xml_file payload d = some (record d { lwm2m_xml_file = load_buffer payload })

module _ (lib : Libcoap) (parsers : Parsers) where
  unfoldable pub load_cluster_xml_file : ℕ → Bytes → Client → Run
  load_cluster_xml_file = exchange lib (load_request (store_cluster_xml parsers))

  unfoldable pub load_sdf_model_file : ℕ → Bytes → Client → Run
  load_sdf_model_file = exchange lib (load_request (store_sdf_model_file parsers))

  unfoldable pub load_sdf_mapping_lwm2m_file : ℕ → Bytes → Client → Run
  load_sdf_mapping_lwm2m_file = exchange lib (load_request (store_sdf_mapping_lwm2m_file parsers))

  unfoldable pub load_sdf_mapping_matter_file : ℕ → Bytes → Client → Run
  load_sdf_mapping_matter_file = exchange lib (load_request (store_sdf_mapping_matter_file parsers))

  unfoldable pub load_lwm2m_file : ℕ → Bytes → Client → Run
  load_lwm2m_file = exchange lib (load_request (store_lwm2m_xml_file parsers))

module _ (lib : Libcoap) where
  unfoldable pub coap_client_get : ℕ → Bytes → Client → Run
  coap_client_get = exchange lib get_request

  unfoldable pub coap_client_put : ℕ → Bytes → Client → Run
  coap_client_put = exchange lib (put_request off_message)

  -- `answer` is the caller's buffer, and its size is not used.
  unfoldable pub coap_client_get_answer : ℕ → Bytes → Buffer → ℕ → Client → Run
  coap_client_get_answer fuel client_uri answer answer_size c =
      exchange lib get_answer_request fuel client_uri (record c { answer = answer })

  -- `data_size` bytes of the caller's memory are sent.
  unfoldable pub coap_client_put_payload : ℕ → Bytes → Bytes → ℕ → Client → Run
  coap_client_put_payload fuel client_uri bytes data_size =
      exchange lib (put_request (take data_size bytes)) fuel client_uri

-- ===== src/Examples/Clients.antt =====
-- The client of main/CoapClient.cpp with small CoAP libraries.
use matter_lwm2m_bridge.Base.{
  ◌≡◌, refl, ℤ, pos, negsuc, false, none, some, List, [], ◌∷◌, All, arith,
}
use matter_lwm2m_bridge.Text.{Bytes, codes}
use matter_lwm2m_bridge.Json.{null, string, Xml, node, no_children}
use matter_lwm2m_bridge.Client.Library.{Uri, Libcoap, Response}
use matter_lwm2m_bridge.Client.State.{Buffer, Client, running}
use matter_lwm2m_bridge.Client.Answer.{write_answer}
use matter_lwm2m_bridge.Client.Exchange.{wait_loop}
use matter_lwm2m_bridge.Client.Requests.{
  load_cluster_xml_file, load_lwm2m_file, load_sdf_model_file, load_sdf_mapping_lwm2m_file,
  load_sdf_mapping_matter_file, Parsers, get_request,
}
use matter_lwm2m_bridge.Client.Cleanup.{
  IsIdle, ClosesUp, client_functions, client_functions-ClosesUp,
}
use matter_lwm2m_bridge.Client.Returning.{Stops, client_functions-Stops}
use matter_lwm2m_bridge.Client.Serving.{IsServing}
use matter_lwm2m_bridge.Client.Storing.{Gives}
use matter_lwm2m_bridge.Client.Loading.{load_files-Gives}
use matter_lwm2m_bridge.Client.Waiting.{wait_loop-running}
use matter_lwm2m_bridge.Client.Replies.{write_answer_strays}

abbrev some_uri : Uri
some_uri = record { host = codes "fd73::1"; port = 5683; scheme = 0; path = codes "xml/lwm2m-xml" }

-- A library in which every call succeeds and a round of waiting gives `outcome`.
abbrev pub coap_with : ℤ × List Response → Libcoap
coap_with outcome = record {
  split_uri_result = λ t u. (pos 0, some_uri);
  resolve_result = λ t h p s. some 1;
  context_result = λ t. some 2;
  session_result = λ t k d. some 3;
  pdu_result = λ t m s. some 4;
  options_result = λ t u d o. (pos 0, some 5);
  add_optlist_result = λ t p o. pos 1;
  add_data_result = λ t p s. 1;
  send_result = λ t s p. some 7;
  leisure_result = λ t s. 5;
  io_result = λ t k w. outcome;
}

-- No response arrives, one does, the library reports an error.
abbrev pub quiet_coap : Libcoap
quiet_coap = coap_with (pos 1000, [])

abbrev answering_coap : Libcoap
answering_coap = coap_with (pos 20, some (codes "[1]") ∷ [])

abbrev broken_coap : Libcoap
broken_coap = coap_with (negsuc 0, [])

abbrev pub empty_node : Xml
empty_node = node [] [] [] no_children

abbrev some_parsers : Parsers
some_parsers = record {
  parse = λ s. some (string s);
  load_buffer = λ s. node (codes "root") [] s no_children;
}

abbrev pub some_buffer : Buffer
some_buffer = record { cells = 9 ∷ 9 ∷ 9 ∷ 9 ∷ []; strayed = [] }

abbrev pub idle_client : Client
idle_client = record {
  ctx = none;
  optlist = none;
  have_response = false;
  session = none;
  answer = some_buffer;
  documents = record {
    sdf_model_file = null;
    sdf_mapping_lwm2m_file = null;
    sdf_mapping_matter_file = null;
    lwm2m_xml_file = empty_node;
    cluster_xml = empty_node;
  };
  trace = [];
}

pub idle_client-IsIdle : IsIdle idle_client
idle_client-IsIdle = record {
  nothing_held = record { context_held = refl; session_held = refl; library_held = refl };
  ctx_null = refl;
  session_null = refl;
  optlist_null = refl;
  no_response = refl;
}

client_functions-ClosesUp_example :
    All
      (λ f. ClosesUp (f 2 (codes "coap://[fd73::1]/xml/lwm2m-xml") idle_client))
      (client_functions answering_coap some_parsers some_buffer (codes "on") 2)
client_functions-ClosesUp_example =
    client_functions-ClosesUp answering_coap some_parsers some_buffer (codes "on") 2 2
      (codes "coap://[fd73::1]/xml/lwm2m-xml") idle_client idle_client-IsIdle

client_functions-Stops_example :
    All
      (λ f. Stops (f 65536001 (codes "coap://[fd73::1]/") idle_client))
      (client_functions quiet_coap some_parsers some_buffer (codes "on") 2)
client_functions-Stops_example =
    client_functions-Stops quiet_coap some_parsers some_buffer (codes "on") 2 65536001
      (codes "coap://[fd73::1]/") idle_client (λ t k e. (999, refl)) (λ t s. omega arith)
      (omega arith)

wait_loop-running_example : (wait_loop broken_coap get_request 50 6000 idle_client).0 ≡ running
wait_loop-running_example =
    wait_loop-running broken_coap get_request 50 6000 idle_client (λ t k. (0, refl)) refl

write_answer_strays_example :
    (strays : Bytes) × ((write_answer (codes "22.5 C") some_buffer).strayed ≡ 6 ∷ strays)
write_answer_strays_example = write_answer_strays (codes "22.5 C") some_buffer (omega arith)

pub coap_with-IsServing : (r : Response) → IsServing (coap_with (pos 20, r ∷ [])) r
coap_with-IsServing r = record {
  splits = λ t u. refl;
  resolves = λ t h p s. (1, refl);
  makes_context = λ t. (2, refl);
  makes_session = λ t k d. (3, refl);
  makes_pdu = λ t m s. (4, refl);
  makes_options = λ t u d o. refl;
  adds_options = λ t p o. refl;
  sends = λ t s p. (7, refl);
  answers = λ t k. (20, refl);
}

answering_coap-IsServing : IsServing answering_coap (some (codes "[1]"))
answering_coap-IsServing = coap_with-IsServing (some (codes "[1]"))

load_files-Gives_example :
    let u = codes "coap://[fd73::1]/sdf" in
    let d = idle_client.documents in
    let parsed = node (codes "root") [] (codes "[1]") no_children in
    Gives
      (record d { cluster_xml = parsed })
      some_buffer
      (load_cluster_xml_file answering_coap some_parsers 2 u idle_client)
    × Gives
        (record d { lwm2m_xml_file = parsed })
        some_buffer
        (load_lwm2m_file answering_coap some_parsers 2 u idle_client)
    × Gives
        (record d { sdf_model_file = string (codes "[1]") })
        some_buffer
        (load_sdf_model_file answering_coap some_parsers 2 u idle_client)
    × Gives
        (record d { sdf_mapping_lwm2m_file = string (codes "[1]") })
        some_buffer
        (load_sdf_mapping_lwm2m_file answering_coap some_parsers 2 u idle_client)
    × Gives
        (record d { sdf_mapping_matter_file = string (codes "[1]") })
        some_buffer
        (load_sdf_mapping_matter_file answering_coap some_parsers 2 u idle_client)
load_files-Gives_example =
    load_files-Gives answering_coap (codes "[1]") answering_coap-IsServing some_parsers
      (string (codes "[1]")) 0 (codes "coap://[fd73::1]/sdf") idle_client refl refl

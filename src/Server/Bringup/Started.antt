-- ===== src/Server/Bringup/Started.antt =====
-- What the task of the CoAP server in main/main.cpp serves when it has been started.
use matter_lwm2m_bridge.Base.{
  ℕ, suc, ◌+◌, ◌*◌, ◌<◌, ◌≡◌, ◌≢◌, ℤ, refl, ◌∙◌, ap, true, false, ◌||◌, some, List, ◌∷◌, ◌++◌, All,
  IsInt32,
}
use matter_lwm2m_bridge.Text.{Bytes}
use matter_lwm2m_bridge.Hex.{Ip6Addr, ip6_to_str}
use matter_lwm2m_bridge.Client.Library.{Libcoap}
use matter_lwm2m_bridge.Client.State.{Buffer, Client, Documents, Run, returned, terminated, looping}
use matter_lwm2m_bridge.Client.Requests.{Parsers, store_lwm2m_xml_file, load_lwm2m_file}
use matter_lwm2m_bridge.Client.Serving.{IsServing}
use matter_lwm2m_bridge.Client.Storing.{Gives}
use matter_lwm2m_bridge.Client.Loading.{load_request-Gives}
use matter_lwm2m_bridge.Server.Definition.{
  Pugixml, IsPugixml, IsDefined, document_of, parse_object_definition,
  parse_object_definition-document_of,
}
use matter_lwm2m_bridge.Server.Register.{
  Method, CoapResources, ResourceDefinition, ObjectDefinition, has_operation, resource_uri,
  generate_coap_resource,
}
use matter_lwm2m_bridge.Server.Routes.{served}
use matter_lwm2m_bridge.Server.Serving.{handler_at, generate_coap_resource-serves}
use matter_lwm2m_bridge.Server.Startup.{
  Starting, serving, IsFresh, has_endpoint, init_server, start_server, start_server-init_server,
}
use matter_lwm2m_bridge.Server.Bringup.{
  Poll, Bringup, no_document, started, lwm2m_xml_uri, serve_definition, bring_up, init_coap_server,
}
use matter_lwm2m_bridge.Server.Bringup.Waiting.{ReadyAfter, init_coap_server-waits}

-- A run that leaves documents behind has returned.
Gives-returned :
    (d : Documents) (b : Buffer) (run : Run)
    → Gives d b run
    → (v : ℤ) × (c : Client) × (run ≡ returned v c) × (c.documents ≡ d)
Gives-returned d b (returned v c) (e, _) = (v, c, refl, e)
Gives-returned d b (terminated c) h = absurd h
Gives-returned d b (looping c) h = absurd h

module _ (coap : CoapResources) (pugi : Pugixml) (lib : Libcoap) (parsers : Parsers) (htonl : ℕ → ℕ)
    (starting : Starting) (new_resources : coap.Context) where
  bring_up_returned :
      (client_fuel ticks : ℕ) (address : Ip6Addr) (s : Bringup coap) (v : ℤ) (c : Client)
      → load_lwm2m_file lib parsers client_fuel lwm2m_xml_uri s.client ≡ returned v c
      → bring_up coap pugi lib parsers htonl starting new_resources client_fuel address ticks s
        ≡ serve_definition coap pugi lib parsers htonl starting new_resources client_fuel address
            ticks c s
  unfolding bring_up
  bring_up_returned client_fuel ticks address s v c e = rw (e, bring_up) refl

  serve_definition-serves :
      (client_fuel ticks ctx : ℕ) (address : Ip6Addr) (c : Client) (s : Bringup coap)
      (o : ObjectDefinition) (before after : List ResourceDefinition) (r : ResourceDefinition)
      (m : Method)
      → IsPugixml pugi
      → c.documents.lwm2m_xml_file ≡ document_of o
      → starting.new_context ≡ some ctx
      → IsFresh (some ctx) s.startup
      → has_endpoint (starting.new_endpoint ctx) (starting.resolve_local (ip6_to_str htonl address))
        ≡ true
      → o.resources ≡ before ++ r ∷ after
      → IsInt32 o.id
      → All IsDefined o.resources
      → All (λ q. IsInt32 q.id × (q.id ≢ r.id)) after
      → IsInt32 r.id
      → (has_operation b'R' r || (has_operation b'W' r || has_operation b'E' r)) ≡ true
      → (s' : Bringup coap) × (serve_definition coap pugi lib parsers htonl starting new_resources
            client_fuel address ticks c s
          ≡ started ticks true (serving ctx) s')
        × (handler_at coap (resource_uri o.id r.id) m s'.server
            ≡ served (has_operation b'R' r) (has_operation b'W' r) (has_operation b'E' r) m)
  unfolding serve_definition
  serve_definition-serves client_fuel ticks ctx address c s o before after r m laws doc made fresh
        endpoint e h hs others k op =
      let parsed =
        ap (parse_object_definition pugi) doc
        ∙ parse_object_definition-document_of pugi laws o h hs in
      let start = init_server starting (ip6_to_str htonl address) s.startup in
      let starts : (start.0, start_server start.1) ≡ (true, serving ctx) =
        start_server-init_server starting (ip6_to_str htonl address) s.startup (rw made fresh)
        ∙ rw (made, endpoint) refl in
      let left : ObjectDefinition → Bringup coap = λ d. record {
        client = record c { documents = record c.documents { lwm2m_xml_file = no_document } };
        startup = start.1;
        server = generate_coap_resource coap d (record s.server { coap_ctx = new_resources });
      } in
      (
        left o,
        ap (λ d. started ticks start.0 (start_server start.1) (left d)) parsed
            ∙ ap (λ p. started ticks p.0 p.1 (left o)) starts,
        (generate_coap_resource-serves coap o before after r m _ e h k others op).0,
      )

  -- The server's task from its start to a resource: when the interface has three addresses for the
  -- first time in round `k`, the download brings the document of an object definition, and the CoAP
  -- library gives a fresh context with an endpoint for one of the local addresses that the text of the
  -- third address resolves to, the task ends up handling requests on that context after the delays of
  -- `k` rounds, and serves a resource of the definition on `<object>/0/<resource>` by the handlers of
  -- its operations; under the condition that the ids are `int`s and no later resource repeats the id.
  pub init_coap_server-serves :
      (client_fuel rounds k' ctx : ℕ) (polls : ℕ → Poll) (address : Ip6Addr) (s : Bringup coap)
      (payload : Bytes) (o : ObjectDefinition) (before after : List ResourceDefinition)
      (r : ResourceDefinition) (m : Method)
      → k' < rounds
      → ReadyAfter polls 0 k' address
      → IsServing lib (some payload)
      → s.client.have_response ≡ false
      → IsPugixml pugi
      → parsers.load_buffer payload ≡ document_of o
      → starting.new_context ≡ some ctx
      → IsFresh (some ctx) s.startup
      → has_endpoint (starting.new_endpoint ctx) (starting.resolve_local (ip6_to_str htonl address))
        ≡ true
      → o.resources ≡ before ++ r ∷ after
      → IsInt32 o.id
      → All IsDefined o.resources
      → All (λ q. IsInt32 q.id × (q.id ≢ r.id)) after
      → IsInt32 r.id
      → (has_operation b'R' r || (has_operation b'W' r || has_operation b'E' r)) ≡ true
      → (s' : Bringup coap) × (init_coap_server coap pugi lib parsers htonl starting new_resources
            (suc (suc client_fuel))
            rounds
            polls
            0
            0
            s
          ≡ started (k' * 5000 + 1000) true (serving ctx) s')
        × (handler_at coap (resource_uri o.id r.id) m s'.server
            ≡ served (has_operation b'R' r) (has_operation b'W' r) (has_operation b'E' r) m)
  unfolding load_lwm2m_file
  init_coap_server-serves client_fuel rounds k' ctx polls address s payload o before after r m l
        ready serving_lib free laws doc made fresh endpoint e h hs others k op =
      let (v, c, run, documents) = Gives-returned _ _ _ (
        load_request-Gives lib payload serving_lib (store_lwm2m_xml_file parsers) _ client_fuel
          lwm2m_xml_uri s.client free refl) in
      let (s', served_on, handled) =
        serve_definition-serves (suc (suc client_fuel)) (k' * 5000 + 1000) ctx address c s o before
          after r m laws (ap (λ d. d.lwm2m_xml_file) documents ∙ doc) made fresh endpoint e h hs
          others k op in
      (
        s',
        init_coap_server-waits coap pugi lib parsers htonl starting new_resources
              (suc (suc client_fuel)) rounds k' polls address s l ready
            ∙ bring_up_returned (suc (suc client_fuel)) (k' * 5000 + 1000) address s v c run
            ∙ served_on,
        handled,
      )

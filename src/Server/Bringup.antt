-- ===== src/Server/Bringup.antt =====
-- The task of the CoAP server, `InitCoapServer` of main/main.cpp.
pub mod Waiting
pub mod Started
use matter_lwm2m_bridge.Base.{
  ℕ, zero, suc, ◌+◌, Bool, true, false, Option, none, some, List, [], get_elem?, if◌then◌else◌,
}
use matter_lwm2m_bridge.Text.{Bytes, codes}
use matter_lwm2m_bridge.Json.{Xml, node, no_children}
use matter_lwm2m_bridge.Hex.{Ip6Addr, ip6_to_str}
use matter_lwm2m_bridge.Client.Library.{Libcoap}
use matter_lwm2m_bridge.Client.State.{Client, Run, returned, terminated, looping}
use matter_lwm2m_bridge.Client.Requests.{Parsers, load_lwm2m_file}
use matter_lwm2m_bridge.Server.Definition.{Pugixml, parse_object_definition}
use matter_lwm2m_bridge.Server.Register.{CoapResources, ServerState, generate_coap_resource}
use matter_lwm2m_bridge.Server.Startup.{Starting, Startup, Serving, init_server, start_server}

-- What the network stack answers in one round of the loop: whether the default interface is up, and
-- its addresses.
pub record Poll : Type 0 where
  pub netif_up : Bool
  pub addresses : List Ip6Addr

-- `xml_document::reset()`
abbrev pub no_document : Xml
no_document = node [] [] [] no_children

abbrev pub lwm2m_xml_uri : Bytes
lwm2m_xml_uri = codes "coap://[2a02:8109:c40:7cc6:8150:45c1:c796:5026]:5683/xml/lwm2m-xml"

-- What the task works on: the client, the start of the server, and its resources.
pub record Bringup (coap : CoapResources) : Type 0 where
  pub client : Client
  pub startup : Startup
  pub server : ServerState coap

-- What has become of the task, with the ticks that it was delayed: it still waits for addresses, its
-- download does not end or throws, or the server has been started; the result of `init_server` is not
-- used by the code.
pub data Progress (coap : CoapResources) : Type 0 where
  waiting : ℕ → Progress coap
  loading : ℕ → Client → Progress coap
  thrown : ℕ → Client → Progress coap
  started : ℕ → Bool → Serving → Bringup coap → Progress coap

-- The address at index 2 is there exactly where the list is long enough for both tests; a shorter
-- list leads to the same delay at either one.
abbrev pub usable_address : Poll → Option Ip6Addr
usable_address p = if p.netif_up then get_elem? p.addresses 2 else none

-- `new_resources` are the resources of a new context of the CoAP library, and `client_fuel` the fuel of
-- the client's loop.
module _ (coap : CoapResources) (pugi : Pugixml) (lib : Libcoap) (parsers : Parsers) (htonl : ℕ → ℕ)
    (starting : Starting) (new_resources : coap.Context) (client_fuel : ℕ) where
  -- Behind the download. Where `init_server` has failed, the resources go to a context that is null or
  -- freed.
  unfoldable pub serve_definition : Ip6Addr → ℕ → Client → Bringup coap → Progress coap
  serve_definition address ticks c s =
      let object_definition = parse_object_definition pugi c.documents.lwm2m_xml_file in
      let reset = record c { documents = record c.documents { lwm2m_xml_file = no_document } } in
      let (done, startup) = init_server starting (ip6_to_str htonl address) s.startup in
      started ticks done (start_server startup) (record {
        client = reset;
        startup = startup;
        server =
            generate_coap_resource coap object_definition
              (record s.server { coap_ctx = new_resources });
      })

  -- The part of the loop behind the tests.
  unfoldable pub bring_up : Ip6Addr → ℕ → Bringup coap → Progress coap
  unfolding serve_definition
  bring_up address ticks s = elim (load_lwm2m_file lib parsers client_fuel lwm2m_xml_uri s.client) [
    | returned _ c ↦ serve_definition address ticks c s
    | terminated c ↦ thrown ticks c
    | looping c ↦ loading ticks c
  ]

  -- The endless loop, on fuel for its rounds, of which `now` is the next one.
  unfoldable pub init_coap_server : ℕ → (ℕ → Poll) → ℕ → ℕ → Bringup coap → Progress coap
  unfolding bring_up
  init_coap_server zero polls now ticks s = waiting ticks
  init_coap_server (suc rounds) polls now ticks s = elim (usable_address (polls now)) [
    | some address ↦ bring_up address (ticks + 1000) s
    | none ↦ init_coap_server rounds polls (suc now) (ticks + 5000) s
  ]

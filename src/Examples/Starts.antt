-- ===== src/Examples/Starts.antt =====
-- The definition and the start of the server of main/main.cpp.
use mathlib.Core.Logic.{ite}
use matter_lwm2m_bridge.Base.{
  inl, inr, ℕ, zero, suc, ℤ, pos, ◌≡◌, refl, ap, ◌∙◌, true, false, Option, none, some, List, [],
  ◌∷◌, find, Result, ok, err, arith, ◌+◌, ◌*◌,
}
use matter_lwm2m_bridge.Text.{Bytes, codes, Bytes_discrete, stoi, index_of}
use matter_lwm2m_bridge.Text.Decimal.{stoi-to_string}
use matter_lwm2m_bridge.Json.{Xml, node, Children, string}
use matter_lwm2m_bridge.Hex.{Ip6Addr}
use matter_lwm2m_bridge.Client.Library.{Libcoap}
use matter_lwm2m_bridge.Client.Requests.{Parsers}
use matter_lwm2m_bridge.Server.Definition.{
  Pugixml, IsPugixml, first_named, all_named, document_of, parse_object_definition,
  parse_object_definition-document_of,
}
use matter_lwm2m_bridge.Server.Register.{get, has_operation}
use matter_lwm2m_bridge.Server.Routes.{served}
use matter_lwm2m_bridge.Server.Serving.{handler_at}
use matter_lwm2m_bridge.Server.Startup.{serving}
use matter_lwm2m_bridge.Server.Bringup.{Poll, Bringup, started, bring_up, init_coap_server}
use matter_lwm2m_bridge.Server.Bringup.Waiting.{ReadyAfter, init_coap_server-waits}
use matter_lwm2m_bridge.Server.Bringup.Started.{init_coap_server-serves}
use matter_lwm2m_bridge.Examples.Clients.{idle_client, coap_with, coap_with-IsServing}
use matter_lwm2m_bridge.Examples.Servers.{
  light_object, light_state, list_coap, no_resources, second_address, not_started, light_uri,
}

abbrev children_of_node : Xml → Children
children_of_node (node _ _ _ below) = below

abbrev text_of : Xml → Bytes
text_of (node _ _ text _) = text

abbrev attributes_of : Xml → List (Bytes × Bytes)
attributes_of (node _ attributes _ _) = attributes

abbrev or_zero : Result ℤ → ℤ
or_zero (ok i) = i
or_zero (err e) = pos 0

abbrev read_text : Option Bytes → ℤ
read_text none = pos 0
read_text (some t) = or_zero (stoi t)

-- The accessors on the tree.
abbrev tree_pugi : Pugixml
tree_pugi = record {
  child_of = λ k o. elim o [ none ↦ none | some x ↦ first_named k (children_of_node x) ];
  children_of = λ k o. elim o [ none ↦ [] | some x ↦ all_named k (children_of_node x) ];
  attribute_as_int =
      λ k o. elim o [ none ↦ pos 0 | some x ↦ read_text (find Bytes_discrete k (attributes_of x)) ];
  text_as_int = λ o. elim o [ none ↦ pos 0 | some x ↦ or_zero (stoi (text_of x)) ];
  text_as_string = λ o. elim o [ none ↦ [] | some x ↦ text_of x ];
  text_as_bool = λ o. elim o [
    | none ↦ false
    | some x ↦ ite (Bytes_discrete (text_of x) (codes "true")) true false
  ];
}

tree_pugi-IsPugixml : IsPugixml tree_pugi
unfolding Bytes_discrete
tree_pugi-IsPugixml = record {
  finds_child = λ k name text attributes children. refl;
  finds_children = λ k name text attributes children. refl;
  reads_attribute =
      λ k name text attributes children i h e. ap read_text e ∙ ap or_zero (stoi-to_string i h);
  reads_int = λ name attributes children i h. rw (stoi-to_string i h) refl;
  reads_string = λ name text attributes children. refl;
  reads_true = λ name attributes children. refl;
  reads_false = λ name attributes children. refl;
}

parse_object_definition-document_of_example :
    parse_object_definition tree_pugi (document_of light_object) ≡ light_object
parse_object_definition-document_of_example =
    parse_object_definition-document_of tree_pugi tree_pugi-IsPugixml light_object (omega arith)
      ((omega arith, refl), tt)

abbrev address_of : ℕ → Ip6Addr
address_of n = record { addr_0 = n; addr_1 = 0; addr_2 = 0; addr_3 = 1 }

-- The interface comes up in round 1 and has three addresses from round 2 on.
abbrev polls : ℕ → Poll
polls zero = record { netif_up = false; addresses = [] }
polls (suc zero) = record { netif_up = true; addresses = address_of 1 ∷ address_of 2 ∷ [] }
polls _ = record { netif_up = true; addresses = address_of 1 ∷ address_of 2 ∷ address_of 3 ∷ [] }

polls-ReadyAfter : ReadyAfter polls 0 2 (address_of 3)
polls-ReadyAfter = (inl refl, (inr (omega arith), (refl, (address_of 1, address_of 2, [], refl))))

abbrev document_parsers : Parsers
document_parsers = record {
  parse = λ s. some (string s);
  load_buffer = λ s. document_of light_object;
}

abbrev document_coap : Libcoap
document_coap = coap_with (pos 20, some (codes "<LWM2M/>") ∷ [])

abbrev before_start : Bringup list_coap
before_start = record { client = idle_client; startup = not_started; server = no_resources }

init_coap_server-waits_example :
    init_coap_server list_coap tree_pugi document_coap document_parsers
      (λ w. w)
      second_address
      []
      2
      3
      polls
      0
      0
      before_start
    ≡ bring_up list_coap tree_pugi document_coap document_parsers
        (λ w. w)
        second_address
        []
        2
        (address_of 3)
        (2 * 5000 + 1000)
        before_start
init_coap_server-waits_example =
    init_coap_server-waits list_coap tree_pugi document_coap document_parsers (λ w. w)
      second_address [] 2 3 2 polls (address_of 3) before_start (omega arith) polls-ReadyAfter

init_coap_server-serves_example :
    (s' : Bringup list_coap) × (init_coap_server list_coap tree_pugi document_coap document_parsers
        (λ w. w)
        second_address
        []
        2
        3
        polls
        0
        0
        before_start
      ≡ started (2 * 5000 + 1000) true (serving 9) s')
    × (handler_at list_coap light_uri get s'.server
        ≡ served
            (has_operation b'R' light_state)
            (has_operation b'W' light_state)
            (has_operation b'E' light_state)
            get)
init_coap_server-serves_example =
    init_coap_server-serves list_coap tree_pugi document_coap document_parsers (λ w. w)
      second_address [] 0 3 2 9 polls (address_of 3) before_start (codes "<LWM2M/>") light_object []
      [] light_state get (omega arith) polls-ReadyAfter
      (coap_with-IsServing (some (codes "<LWM2M/>"))) refl tree_pugi-IsPugixml refl refl refl refl
      refl (omega arith) ((omega arith, refl), tt) tt (omega arith) (unfold index_of in refl)

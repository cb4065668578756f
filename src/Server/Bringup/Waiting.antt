-- ===== src/Server/Bringup/Waiting.antt =====
-- How long the task of the CoAP server in main/main.cpp waits for the network.
use matter_lwm2m_bridge.Base.{
  ◌⊎◌, inl, inr, length, get_elem?, Bool-cases, ℕ, zero, suc, ◌+◌, ◌*◌, ◌<◌, ◌≡◌, refl, ◌∙◌, ap,
  true, false, none, some, List, [], ◌∷◌, arith,
}
use matter_lwm2m_bridge.Hex.{Ip6Addr}
use matter_lwm2m_bridge.Client.Library.{Libcoap}
use matter_lwm2m_bridge.Client.Requests.{Parsers}
use matter_lwm2m_bridge.Server.Definition.{Pugixml}
use matter_lwm2m_bridge.Server.Register.{CoapResources}
use matter_lwm2m_bridge.Server.Startup.{Starting}
use matter_lwm2m_bridge.Server.Bringup.{Poll, Bringup, usable_address, bring_up, init_coap_server}

-- The interface is up and has three addresses, of which `address` is the third; and the contrary.
abbrev pub HasThird : Poll → Ip6Addr → Type 0
HasThird p address =
    (p.netif_up ≡ true)
    × ((first : Ip6Addr) × (second : Ip6Addr) × (others : List Ip6Addr) × (p.addresses
          ≡ first ∷ second ∷ address ∷ others))

abbrev pub HasFewer : Poll → Type 0
HasFewer p = (p.netif_up ≡ false) ⊎ (length p.addresses < 3)

-- The first round from `now` on with three addresses is the `k`-th, and `address` its third one.
abbrev pub ReadyAfter : (ℕ → Poll) → ℕ → ℕ → Ip6Addr → Type 0
ReadyAfter polls now zero address = HasThird (polls now) address
ReadyAfter polls now (suc k) address = HasFewer (polls now) × ReadyAfter polls (suc now) k address

usable_address-HasThird :
    (p : Poll) (address : Ip6Addr) → HasThird p address → usable_address p ≡ some address
usable_address-HasThird p address (up, (first, second, others, e)) = rw (up, e) refl

get_elem?_short : (addresses : List Ip6Addr) → length addresses < 3 → get_elem? addresses 2 ≡ none
get_elem?_short [] h = refl
get_elem?_short (a ∷ []) h = refl
get_elem?_short (a ∷ b ∷ []) h = refl
get_elem?_short (a ∷ b ∷ c ∷ rest) h = absurd (omega arith)

usable_address-HasFewer : (p : Poll) → HasFewer p → usable_address p ≡ none
usable_address-HasFewer p (inl down) = rw down refl
usable_address-HasFewer p (inr few) = elim (Bool-cases p.netif_up) [
  | inl up ↦ rw (up, get_elem?_short p.addresses few) refl
  | inr down ↦ rw down refl
]

module _ (coap : CoapResources) (pugi : Pugixml) (lib : Libcoap) (parsers : Parsers) (htonl : ℕ → ℕ)
    (starting : Starting) (new_resources : coap.Context) where
  init_coap_server-from :
      (client_fuel rounds k now ticks : ℕ) (polls : ℕ → Poll) (address : Ip6Addr) (s : Bringup coap)
      → k < rounds
      → ReadyAfter polls now k address
      → init_coap_server coap pugi lib parsers htonl starting new_resources client_fuel rounds polls
          now ticks s
        ≡ bring_up coap pugi lib parsers htonl starting new_resources client_fuel address
            (ticks + k * 5000 + 1000)
            s
  unfolding init_coap_server
  init_coap_server-from client_fuel zero k now ticks polls address s l h = elim l [ ]
  init_coap_server-from client_fuel (suc rounds) zero now ticks polls address s l h =
      rw (usable_address-HasThird (polls now) address h, init_coap_server)
        (ap
          (λ n. bring_up coap pugi lib parsers htonl starting new_resources client_fuel address n s)
          (omega arith))
  init_coap_server-from client_fuel (suc rounds) (suc k) now ticks polls address s l (h, hs) =
      rw (usable_address-HasFewer (polls now) h, init_coap_server)
        (init_coap_server-from client_fuel rounds k (suc now) (ticks + 5000) polls address s
            (omega arith) hs
          ∙ ap
              (λ n.
                bring_up coap pugi lib parsers htonl starting new_resources client_fuel address n s)
              (omega arith))

  -- The server's task waits as long as the interface is down or has fewer than three addresses: when
  -- there are three for the first time in round `k`, it leaves the loop in that round, 5000 ticks for
  -- each round before and 1000 more after its start, and goes on with the third address; on any fuel
  -- for more than `k` rounds.
  pub init_coap_server-waits :
      (client_fuel rounds k : ℕ) (polls : ℕ → Poll) (address : Ip6Addr) (s : Bringup coap)
      → k < rounds
      → ReadyAfter polls 0 k address
      → init_coap_server coap pugi lib parsers htonl starting new_resources client_fuel rounds polls
          0 0 s
        ≡ bring_up coap pugi lib parsers htonl starting new_resources client_fuel address
            (k * 5000 + 1000)
            s
  init_coap_server-waits client_fuel rounds k polls address s l h =
      init_coap_server-from client_fuel rounds k 0 0 polls address s l h
      ∙ ap
          (λ n. bring_up coap pugi lib parsers htonl starting new_resources client_fuel address n s)
          (omega arith)

-- ===== src/Server/Startup.antt =====
-- `init_server`, `cleanup_server` and `start_server` of main/CoapServer.cpp.
use mathlib.Core.Path.{subst}
use matter_lwm2m_bridge.Base.{
  ℕ, ◌+◌, ◌≡◌, refl, Bool, true, false, ◌||◌, Option, none, some, List, [], ◌∷◌, ◌==◌, ==_of_eq,
  if◌then◌else◌, Bool-cases, Option-cases, inl, inr, arith,
}
use matter_lwm2m_bridge.Text.{Bytes}

-- What the server asks of the CoAP library when it starts: a context, the local addresses of an
-- address text, and an endpoint for an address.
pub record Starting : Type 0 where
  pub new_context : Option ℕ
  pub resolve_local : Bytes → List ℕ
  pub new_endpoint : ℕ → ℕ → Bool

-- The global `coap_ctx`, and what the library has been told.
pub record Startup : Type 0 where
  pub coap_ctx : Option ℕ
  pub freed : List ℕ
  pub startups : ℕ
  pub cleanups : ℕ

-- The freed context, unless the pointer is null.
abbrev pub free : Option ℕ → List ℕ → List ℕ
free none freed = freed
free (some k) freed = k ∷ freed

abbrev pub is_freed : ℕ → List ℕ → Bool
is_freed k [] = false
is_freed k (j ∷ freed) = (j == k) || is_freed k freed

-- The pointer keeps its value.
unfoldable pub cleanup_server : Startup → Startup
cleanup_server s = record s { freed = free s.coap_ctx s.freed; cleanups = s.cleanups + 1 }

-- The loop over the addresses: whether there is an endpoint for one of them.
unfoldable pub make_endpoints : (ℕ → Bool) → List ℕ → Bool → Bool
make_endpoints new_endpoint [] have_ep = have_ep
make_endpoints new_endpoint (info ∷ infos) have_ep =
    make_endpoints new_endpoint infos (if new_endpoint info then true else have_ep)

-- The result is whether it is `EXIT_SUCCESS`.
unfoldable pub init_server : Starting → Bytes → Startup → Bool × Startup
init_server lib ip_address s =
    let made = record s { coap_ctx = lib.new_context; startups = s.startups + 1 } in
    elim lib.new_context [
      | none ↦ (false, cleanup_server made)
      | some k ↦
          if make_endpoints (lib.new_endpoint k) (lib.resolve_local ip_address) false
          then (true, made)
          else (false, cleanup_server made)
    ]

-- What `start_server` does: it refuses, it handles requests in an endless loop, or it gives the library
-- a context that has been freed.
pub data Serving : Type 0 where
  refused : Serving
  serving : ℕ → Serving
  use_after_free : ℕ → Serving

unfoldable pub start_server : Startup → Serving
start_server s = elim s.coap_ctx [
  | none ↦ refused
  | some k ↦ if is_freed k s.freed then use_after_free k else serving k
]

abbrev pub has_endpoint : (ℕ → Bool) → List ℕ → Bool
has_endpoint new_endpoint [] = false
has_endpoint new_endpoint (info ∷ infos) = new_endpoint info || has_endpoint new_endpoint infos

make_endpoints-eq-has_endpoint :
    (f : ℕ → Bool) (infos : List ℕ) (b : Bool)
    → make_endpoints f infos b ≡ (b || has_endpoint f infos)
unfolding make_endpoints
make_endpoints-eq-has_endpoint f [] true = refl
make_endpoints-eq-has_endpoint f [] false = refl
make_endpoints-eq-has_endpoint f (info ∷ infos) b =
    let rest = make_endpoints-eq-has_endpoint f infos in ground (arith, rest b, rest true)

-- A context that is fresh: it has not been freed.
abbrev pub IsFresh : Option ℕ → Startup → Type 0
IsFresh none s = Unit
IsFresh (some k) s = is_freed k s.freed ≡ false

-- Starting behind the initialisation, from a state in which the new context has not been freed: with a
-- context and an endpoint for one of the addresses the initialisation succeeds and the server handles
-- requests; without a context both fail; with a context and no endpoint the initialisation fails but
-- the start goes on with the freed context.
pub start_server-init_server :
    (lib : Starting) (ip_address : Bytes) (s : Startup)
    → IsFresh lib.new_context s
    → let (done, s') = init_server lib ip_address s in
      ◌≡◌ {A = Bool × Serving}
        (done, start_server s')
        (elim lib.new_context [
          | none ↦ (false, refused)
          | some k ↦
              if has_endpoint (lib.new_endpoint k) (lib.resolve_local ip_address)
              then (true, serving k)
              else (false, use_after_free k)
        ])
unfolding init_server cleanup_server start_server
start_server-init_server lib ip_address s h = elim (Option-cases lib.new_context) [
  | inl e ↦ rw (e, init_server, e) refl
  | inr (k, e) ↦
      let fresh : is_freed k s.freed ≡ false = subst (λ o. IsFresh o s) e h in
      let same =
        make_endpoints-eq-has_endpoint (lib.new_endpoint k) (lib.resolve_local ip_address) false in
      elim (Bool-cases (has_endpoint (lib.new_endpoint k) (lib.resolve_local ip_address))) [
        | inl b ↦ rw (e, same, b, init_server, e, fresh) refl
        | inr b ↦ rw (e, same, b, init_server, e, e, ==_of_eq k k refl) refl
      ]
]

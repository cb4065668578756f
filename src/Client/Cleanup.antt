-- ===== src/Client/Cleanup.antt =====
-- Whatever happens in an exchange, what it opened is closed when it returns.
use matter_lwm2m_bridge.Base.{ℕ, false, Option, none, some, List, [], ◌∷◌, ◌≡◌, refl, arith, All}
use matter_lwm2m_bridge.Text.{Bytes}
use matter_lwm2m_bridge.Client.Library.{Call, History, Libcoap}
use matter_lwm2m_bridge.Client.State.{
  Buffer, Documents, Client, Outcome, value, finish, threw, running, Run, returned, terminated,
  looping,
}
use matter_lwm2m_bridge.Client.Exchange.{Request, conclude, exchange}
use matter_lwm2m_bridge.Client.Requests.{
  Parsers, on_payload, on_answer, load_cluster_xml_file, load_sdf_model_file,
  load_sdf_mapping_lwm2m_file, load_sdf_mapping_matter_file, load_lwm2m_file, coap_client_get,
  coap_client_put, coap_client_get_answer, coap_client_put_payload, store_cluster_xml,
  store_sdf_model_file, store_sdf_mapping_lwm2m_file, store_sdf_mapping_matter_file,
  store_lwm2m_xml_file,
}
use matter_lwm2m_bridge.Client.Holding.{Holds, Ends, IsTame}
use matter_lwm2m_bridge.Client.Steps.{converse-Ends}

-- Between two calls of the client nothing is open and its globals are reset.
pub record IsIdle (c : Client) : Type 0 where
  pub nothing_held : Holds 0 c
  pub ctx_null : c.ctx ≡ none
  pub session_null : c.session ≡ none
  pub optlist_null : c.optlist ≡ none
  pub no_response : c.have_response ≡ false

-- A run that returns leaves the client idle, with the session released before its context is freed
-- and the library shut down last; a run that an exception ends, or that goes on, still holds what it
-- opened.
abbrev pub ClosesUp : Run → Type 0
ClosesUp (returned r c) =
    IsIdle c
    × ((k : Option ℕ) × (s : Option ℕ) × (o : Option ℕ) × (t : History) × (c.trace
          ≡ Call.cleanup
            ∷ Call.free_context k
            ∷ Call.session_release s
            ∷ Call.delete_optlist o
            ∷ t))
ClosesUp (terminated c) = Holds 1 c
ClosesUp (looping c) = Holds 1 c

conclude-ClosesUp : (r : Outcome (Unit {0}) × Client) → Ends (Holds 1) r → ClosesUp (conclude r)
unfolding conclude
conclude-ClosesUp (value _, c) h = (ground arith, (c.ctx, c.session, c.optlist, c.trace, refl))
conclude-ClosesUp (finish, c) h = (ground arith, (c.ctx, c.session, c.optlist, c.trace, refl))
conclude-ClosesUp (threw, c) h = h
conclude-ClosesUp (running, c) h = h

pub exchange-ClosesUp :
    (lib : Libcoap) (q : Request) (fuel : ℕ) (u : Bytes) (c : Client)
    → IsTame q.handler
    → IsIdle c
    → ClosesUp (exchange lib q fuel u c)
unfolding exchange
exchange-ClosesUp lib q fuel u c tame h =
    conclude-ClosesUp _ (converse-Ends lib q fuel u _ tame (ground arith))

-- The functions of the client, the last two with a buffer and with the bytes to send.
abbrev pub client_functions :
    Libcoap → Parsers → Buffer → Bytes → ℕ → List (ℕ → Bytes → Client → Run)
client_functions lib parsers answer bytes size =
    load_cluster_xml_file lib parsers
    ∷ load_sdf_model_file lib parsers
    ∷ load_sdf_mapping_lwm2m_file lib parsers
    ∷ load_sdf_mapping_matter_file lib parsers
    ∷ load_lwm2m_file lib parsers
    ∷ coap_client_get lib
    ∷ coap_client_put lib
    ∷ (λ fuel u c. coap_client_get_answer lib fuel u answer size c)
    ∷ (λ fuel u c. coap_client_put_payload lib fuel u bytes size c)
    ∷ []

pub on_payload-IsTame :
    (store : Bytes → Documents → Option Documents) → IsTame (some (on_payload store))
on_payload-IsTame store none c c' e = ground arith
on_payload-IsTame store (some payload) c c' e = ground arith

on_answer-IsTame : IsTame (some on_answer)
on_answer-IsTame none c c' e = ground arith
on_answer-IsTame (some payload) c c' e = ground arith

-- Each function of the client, on every path to its end, closes what it opened: when it returns,
-- each context is freed and each session released exactly as often as made, the session before the
-- context, the library is shut down last and as often as it was started, and the globals are reset.
-- An exception leaves them open.
pub client_functions-ClosesUp :
    (lib : Libcoap) (parsers : Parsers) (answer : Buffer) (bytes : Bytes) (size fuel : ℕ)
    (u : Bytes) (c : Client)
    → IsIdle c
    → All (λ f. ClosesUp (f fuel u c)) (client_functions lib parsers answer bytes size)
unfolding load_cluster_xml_file load_sdf_model_file load_sdf_mapping_lwm2m_file
    load_sdf_mapping_matter_file load_lwm2m_file coap_client_get coap_client_put
    coap_client_get_answer coap_client_put_payload
client_functions-ClosesUp lib parsers answer bytes size fuel u c h = (
  exchange-ClosesUp lib _ fuel u c (on_payload-IsTame (store_cluster_xml parsers)) h,
  (
    exchange-ClosesUp lib _ fuel u c (on_payload-IsTame (store_sdf_model_file parsers)) h,
    (
      exchange-ClosesUp lib _ fuel u c (on_payload-IsTame (store_sdf_mapping_lwm2m_file parsers)) h,
      (
        exchange-ClosesUp lib _ fuel u c (on_payload-IsTame (store_sdf_mapping_matter_file parsers))
            h,
        (
          exchange-ClosesUp lib _ fuel u c (on_payload-IsTame (store_lwm2m_xml_file parsers)) h,
          (
            exchange-ClosesUp lib _ fuel u c (λ r c₁ c₂ e. ground arith) h,
            (
              exchange-ClosesUp lib _ fuel u c tt h,
              (
                exchange-ClosesUp lib _ fuel u (record c { answer = answer }) on_answer-IsTame
                    (ground arith),
                (exchange-ClosesUp lib _ fuel u c tt h, tt),
              ),
            ),
          ),
        ),
      ),
    ),
  ),
)

-- ===== src/Client/Loading.antt =====
-- What the loaders and the answering GET of main/CoapClient.cpp leave behind when all goes well.
use matter_lwm2m_bridge.Base.{ℕ, suc, ◌≡◌, refl, false, Option, some}
use matter_lwm2m_bridge.Text.{Bytes}
use matter_lwm2m_bridge.Json.{Json}
use matter_lwm2m_bridge.Client.Library.{Libcoap}
use matter_lwm2m_bridge.Client.State.{Buffer, Client, Documents}
use matter_lwm2m_bridge.Client.Answer.{write_answer}
use matter_lwm2m_bridge.Client.Exchange.{exchange}
use matter_lwm2m_bridge.Client.Requests.{
  Parsers, on_payload, on_answer, load_request, get_answer_request, store_cluster_xml,
  store_sdf_model_file, store_sdf_mapping_lwm2m_file, store_sdf_mapping_matter_file,
  store_lwm2m_xml_file, load_cluster_xml_file, load_sdf_model_file, load_sdf_mapping_lwm2m_file,
  load_sdf_mapping_matter_file, load_lwm2m_file, coap_client_get_answer,
}
use matter_lwm2m_bridge.Client.Serving.{IsServing}
use matter_lwm2m_bridge.Client.Storing.{Gives, exchange-Gives}

module _ (lib : Libcoap) (payload : Bytes) (serving : IsServing lib (some payload)) where
  pub load_request-Gives :
      (store : Bytes → Documents → Option Documents) (d' : Documents) (fuel : ℕ) (u : Bytes)
      (c : Client)
      → c.have_response ≡ false
      → store payload c.documents ≡ some d'
      → Gives d' c.answer (exchange lib (load_request store) (suc (suc fuel)) u c)
  load_request-Gives store d' fuel u c h e =
      exchange-Gives lib (load_request store) (some payload) serving c.documents c.answer d'
        c.answer
        (λ c₁ (hn, hd, hb). (
          on_payload store,
          record c₁ { documents = d' },
          refl,
          rw (hd, e, on_payload) refl,
          (hn, refl, hb),
        ))
        fuel u c refl refl refl (h, refl, refl)

  -- When every call of the library succeeds and the first round of waiting brings a response with a
  -- payload, each loader returns with its own global set to what the parser makes of the payload, the
  -- other documents as they were, and the buffer untouched; the three JSON loaders do so for a payload
  -- that parses.
  pub load_files-Gives :
      (parsers : Parsers) (j : Json) (fuel : ℕ) (u : Bytes) (c : Client)
      → c.have_response ≡ false
      → parsers.parse payload ≡ some j
      → Gives
          (record c.documents { cluster_xml = parsers.load_buffer payload })
          c.answer
          (load_cluster_xml_file lib parsers (suc (suc fuel)) u c)
        × Gives
            (record c.documents { lwm2m_xml_file = parsers.load_buffer payload })
            c.answer
            (load_lwm2m_file lib parsers (suc (suc fuel)) u c)
        × Gives
            (record c.documents { sdf_model_file = j })
            c.answer
            (load_sdf_model_file lib parsers (suc (suc fuel)) u c)
        × Gives
            (record c.documents { sdf_mapping_lwm2m_file = j })
            c.answer
            (load_sdf_mapping_lwm2m_file lib parsers (suc (suc fuel)) u c)
        × Gives
            (record c.documents { sdf_mapping_matter_file = j })
            c.answer
            (load_sdf_mapping_matter_file lib parsers (suc (suc fuel)) u c)
  unfolding load_cluster_xml_file load_lwm2m_file load_sdf_model_file load_sdf_mapping_lwm2m_file
      load_sdf_mapping_matter_file
  load_files-Gives parsers j fuel u c h e = (
    load_request-Gives (store_cluster_xml parsers) _ fuel u c h refl,
    load_request-Gives (store_lwm2m_xml_file parsers) _ fuel u c h refl,
    load_request-Gives (store_sdf_model_file parsers) _ fuel u c h (rw e refl),
    load_request-Gives (store_sdf_mapping_lwm2m_file parsers) _ fuel u c h (rw e refl),
    load_request-Gives (store_sdf_mapping_matter_file parsers) _ fuel u c h (rw e refl),
  )

  -- When every call of the library succeeds and the first round of waiting brings a response with a
  -- payload, the answering GET returns with the payload written into the buffer of its caller, and the
  -- documents as they were.
  pub coap_client_get_answer-Gives :
      (fuel : ℕ) (u : Bytes) (answer : Buffer) (size : ℕ) (c : Client)
      → c.have_response ≡ false
      → Gives c.documents
          (write_answer payload answer)
          (coap_client_get_answer lib (suc (suc fuel)) u answer size c)
  unfolding coap_client_get_answer
  coap_client_get_answer-Gives fuel u answer size c h =
      exchange-Gives lib get_answer_request (some payload) serving c.documents answer c.documents
        (write_answer payload answer)
        (λ c₁ (hn, hd, hb). (
          on_answer,
          record c₁ { answer = write_answer payload c₁.answer },
          refl,
          refl,
          (hn, hd, rw hb refl),
        ))
        fuel u (record c { answer = answer }) refl refl refl (h, refl, refl)

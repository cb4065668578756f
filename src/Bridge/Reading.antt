-- ===== src/Bridge/Reading.antt =====
-- A read at the bridge's callback in main/main.cpp, through the request handlers of
-- main/CoapServer.cpp at the other end and back into the buffer of the callback.
use matter_lwm2m_bridge.Base.{
  ℕ, suc, ◌<◌, ◌≡◌, refl, true, false, Option, none, some, ◌++◌, ok, find, length, get_elem?, IfOk,
  IfOk-bind_second,
}
use matter_lwm2m_bridge.Text.{Bytes, Bytes_discrete}
use matter_lwm2m_bridge.Mapping.{MatterIpsoMapping}
use matter_lwm2m_bridge.Mapping.Lookup.{IsConsistent}
use matter_lwm2m_bridge.Binding.{Data}
use matter_lwm2m_bridge.Client.Library.{Libcoap}
use matter_lwm2m_bridge.Client.State.{Client, Buffer}
use matter_lwm2m_bridge.Client.Answer.{write_answer}
use matter_lwm2m_bridge.Client.Serving.{IsServing}
use matter_lwm2m_bridge.Client.Storing.{Gives}
use matter_lwm2m_bridge.Client.Loading.{coap_client_get_answer-Gives}
use matter_lwm2m_bridge.Client.Requests.{coap_client_get_answer}
use matter_lwm2m_bridge.Server.Forward.{TypeMap, load_data}
use matter_lwm2m_bridge.Server.Read.{
  overwrite, print_result, ReadOutcome, forward_attribute_read_message, hnd_attribute_get,
}
use matter_lwm2m_bridge.Server.Polling.{IsData, ArrivesAt, IsVarEncoder, hnd_attribute_get-answers}
use matter_lwm2m_bridge.Server.Routes.{ids_of_uri-resource_uri}
use matter_lwm2m_bridge.Bridge.{
  device_uri, success, Devices, ember_af_external_attribute_read_callback,
}
use matter_lwm2m_bridge.Bridge.Reaching.{
  IsMapped, translated_back, attribute_path, target_of-eq-append,
}

-- The data that is scheduled is a read of this cluster and attribute.
abbrev pub ReadsFrom : ℕ → ℕ → ReadOutcome → Type 0
ReadsFrom cluster_id attribute_id o =
    (o.scheduled.cluster_id ≡ cluster_id)
    × (o.scheduled.attribute_id ≡ attribute_id)
    × (o.scheduled.read_attribute ≡ true)

module _ (m : MatterIpsoMapping) (types : TypeMap) (arrivals : ℕ → Option Data) where
  forward_attribute_read_message-ReadsFrom :
      (cluster_id attribute_id buf_len : ℕ) (buf : Bytes) (old : Option Data)
      → IsConsistent m
      → IsMapped m.cluster_object_map cluster_id
      → IsMapped m.attribute_resource_map attribute_id
      → IfOk (ReadsFrom cluster_id attribute_id) (
          forward_attribute_read_message m types arrivals
            (attribute_path m types cluster_id attribute_id)
            buf
            buf_len
            old)
  unfolding forward_attribute_read_message
  forward_attribute_read_message-ReadsFrom cluster_id attribute_id buf_len buf old h k l =
      rw (ids_of_uri-resource_uri _ _ k.2 l.2) (
        IfOk-bind_second (ReadsFrom cluster_id attribute_id)
          (load_data (find Bytes_discrete (attribute_path m types cluster_id attribute_id) types)
            buf)
          _
          λ content. (
            translated_back m.cluster_object_map cluster_id h.clusters k,
            translated_back m.attribute_resource_map attribute_id h.attributes l,
            refl,
          ))

  module _ (lib : Libcoap) (g_devices : Devices) (dynamic_index : ℕ → ℕ)
      (encode_var : ℕ → Bytes) where
    -- A read through the whole bridge, with a consistent mapping at both ends that has the cluster and
    -- the attribute, a device at the endpoint, a type registered for the attribute's path and no result
    -- pending: the server schedules a read of that cluster and attribute; if the Matter device answers
    -- within ten sleeps, the server's response is the value in decimal; and if the callback's request
    -- for that path brings this response, the callback succeeds with the decimal text written into its
    -- buffer.
    pub read_callback-arrives :
        (fuel endpoint cluster_id attribute_id size device k : ℕ) (buffer : Buffer) (c : Client)
        (stack type : Bytes) (d : Data)
        → IsConsistent m
        → IsMapped m.cluster_object_map cluster_id
        → IsMapped m.attribute_resource_map attribute_id
        → get_elem? g_devices (dynamic_index endpoint) ≡ some (some device)
        → IsVarEncoder encode_var
        → length stack ≡ 40
        → find Bytes_discrete (attribute_path m types cluster_id attribute_id) types ≡ some type
        → k < 10
        → ArrivesAt arrivals 0 k d
        → IsData d
        → c.have_response ≡ false
        → IsServing lib (some (print_result d))
        → let path = attribute_path m types cluster_id attribute_id in
          let run =
            coap_client_get_answer lib (suc (suc fuel)) (device_uri ++ path) buffer size c in
          IfOk (ReadsFrom cluster_id attribute_id) (
            forward_attribute_read_message m types arrivals path
              (overwrite (encode_var 1) (overwrite (encode_var 0) stack))
              40
              none)
          × (hnd_attribute_get m types arrivals encode_var path stack none
              ≡ ok (print_result d, none))
          × (ember_af_external_attribute_read_callback lib m g_devices dynamic_index
                (suc (suc fuel))
                endpoint
                cluster_id
                attribute_id
                buffer
                size
                c
              ≡ success run)
          × Gives c.documents (write_answer (print_result d) buffer) run
    unfolding ember_af_external_attribute_read_callback
    read_callback-arrives fuel endpoint cluster_id attribute_id size device k buffer c stack type d
          h km lm at enc len known small a v free serving =
        (
          forward_attribute_read_message-ReadsFrom cluster_id attribute_id 40 _ none h km lm,
          (hnd_attribute_get-answers m types arrivals encode_var _ stack type _ k d enc len
              (ids_of_uri-resource_uri _ _ km.2 lm.2) known small a v).0,
          rw (at, ember_af_external_attribute_read_callback, target_of-eq-append) refl,
          coap_client_get_answer-Gives lib (print_result d) serving fuel _ buffer size c free,
        )

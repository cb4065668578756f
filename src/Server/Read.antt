-- ===== src/Server/Read.antt =====
-- `ForwardAttributeReadMessage` and `hnd_attribute_get` of main/CoapServer.cpp, with the global
-- `result_ptr` of main/BindingHandler.cpp through which the answer of the Matter device comes back.
use matter_lwm2m_bridge.Base.{
  ℕ, zero, suc, pos, to_unsigned, true, Option, none, some, [], ◌∷◌, ◌++◌, Result, ok, err, Fault,
  ◌>>=◌, find, length, take, drop, if◌then◌else◌,
}
use matter_lwm2m_bridge.Text.{Bytes, Bytes_discrete, to_string}
use matter_lwm2m_bridge.BiMap.{get_matter_id}
use matter_lwm2m_bridge.Mapping.{MatterIpsoMapping}
use matter_lwm2m_bridge.Binding.{Data, uint16, boolean, BindingCommandData, new_command_data}
use matter_lwm2m_bridge.Server.Forward.{TypeMap, ids_of_uri, load_data}

-- Bytes written at the start of a memory, which keeps what is behind them.
abbrev pub overwrite : Bytes → Bytes → Bytes
overwrite s memory = s ++ drop (length s) memory

-- `snprintf(buffer, buf_len, s)` of a text without a `%`: as much as fits, and a 0.
unfoldable pub snprintf : Bytes → ℕ → Bytes → Bytes
snprintf buffer zero s = buffer
snprintf buffer (suc n) s = overwrite (take n s ++ 0 ∷ []) buffer

-- `std::to_string` of the alternative that the result holds.
unfoldable pub print_result : Data → Bytes
print_result (uint16 n) = to_string (pos n)
print_result (boolean b) = to_string (pos (if b then 1 else 0))

-- The buffer, and the size, which is not set when the time is over.
pub record Waited : Type 0 where
  pub buffer : Bytes
  pub size : Option ℕ

-- The result after a sleep: what arrived last during it, or what was there before.
abbrev pub newest : Option Data → Option Data → Option Data
newest none old = old
newest (some d) old = some d

-- The loop, with `arrivals` for the read answers that arrive during each sleep of 5 seconds.
unfoldable pub await_result : ℕ → (ℕ → Option Data) → ℕ → Option Data → ℕ → Bytes → Waited
await_result zero arrivals now result_ptr buf_len buffer = record { buffer = buffer; size = none }
await_result (suc tries) arrivals now result_ptr buf_len buffer =
    elim (newest (arrivals now) result_ptr) [
      | some d ↦ record {
        buffer = snprintf buffer buf_len (print_result d);
        size = some (length (print_result d));
      }
      | none ↦ await_result tries arrivals (suc now) none buf_len buffer
    ]

-- What the read leaves: the data that was scheduled, the buffer, the size and the global pointer.
pub record ReadOutcome : Type 0 where
  pub scheduled : BindingCommandData
  pub waited : Waited
  pub result_ptr : Option Data

-- `coap_add_data(response, response_len, buf)`: without a size, its value was never written.
abbrev pub response_data : Waited → Result Bytes
response_data w = elim w.size [ none ↦ err Fault.undefined | some n ↦ ok (take n w.buffer) ]

module _ (coap_mapping : MatterIpsoMapping) (type_map : TypeMap) (arrivals : ℕ → Option Data) where
  unfoldable pub forward_attribute_read_message :
      Bytes → Bytes → ℕ → Option Data → Result ReadOutcome
  forward_attribute_read_message uri buffer buf_len result_ptr = do
    (object_id, resource_id) ← ids_of_uri uri
    let cluster_id = get_matter_id object_id coap_mapping.cluster_object_map
    let attribute_id = get_matter_id resource_id coap_mapping.attribute_resource_map
    content ← load_data (find Bytes_discrete uri type_map) buffer
    ok (record {
      scheduled = record new_command_data {
        attribute_id = to_unsigned 32 attribute_id;
        cluster_id = to_unsigned 32 cluster_id;
        read_attribute = true;
        content = content;
      };
      waited = await_result 10 arrivals 0 result_ptr buf_len buffer;
      result_ptr = none;
    })

  -- The handler's `buf` starts with what `coap_encode_var_safe` of the library writes for each of the
  -- two options. The result is the data of the response and the global pointer behind it.
  unfoldable pub hnd_attribute_get :
      (ℕ → Bytes) → Bytes → Bytes → Option Data → Result (Bytes × Option Data)
  hnd_attribute_get encode_var uri stack result_ptr = do
    let buf = overwrite (encode_var 1) (overwrite (encode_var 0) stack)
    outcome ← forward_attribute_read_message uri buf 40 result_ptr
    answer ← response_data outcome.waited
    ok (answer, outcome.result_ptr)

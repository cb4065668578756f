-- ===== src/Program/Parts.antt =====
-- The parts of `InitServer` of main/main.cpp when the files can be loaded and converted.
use matter_lwm2m_bridge.Base.{ℕ, ℤ, suc, ◌≡◌, refl, Option, none, some, List, [], ◌∷◌, ok}
use matter_lwm2m_bridge.Text.{Bytes}
use matter_lwm2m_bridge.Json.{Json}
use matter_lwm2m_bridge.Mapping.{MatterIpsoMapping, generate_matter_ipso_mapping}
use matter_lwm2m_bridge.Bridge.{Devices}
use matter_lwm2m_bridge.Bridge.Endpoints.{
  EmberAfStatus, status_success, EndpointState, AddResult, returned, add_device_endpoint, add_from,
  try_endpoints,
}
use matter_lwm2m_bridge.Client.Library.{Libcoap}
use matter_lwm2m_bridge.Client.State.{Client, Documents, Buffer, Run, terminated, looping}
use matter_lwm2m_bridge.Client.State
use matter_lwm2m_bridge.Client.Exchange.{exchange}
use matter_lwm2m_bridge.Client.Requests.{load_request, load_cluster_xml_file, store_cluster_xml}
use matter_lwm2m_bridge.Client.Cleanup.{IsIdle, ClosesUp, exchange-ClosesUp, on_payload-IsTame}
use matter_lwm2m_bridge.Client.Serving.{IsServing}
use matter_lwm2m_bridge.Client.Storing.{Gives}
use matter_lwm2m_bridge.Client.Loading.{load_request-Gives}
use matter_lwm2m_bridge.Program.Flow.{Flow, finished, Completes, Completes-bind}
use matter_lwm2m_bridge.Program.Converter.{MatterCluster, MatterDevice, convert_sdf_to_matter}
use matter_lwm2m_bridge.Program.Declarations.{EndpointType}
use matter_lwm2m_bridge.Program.Custom.{
  CustomState, create_custom_device, load_cluster_definition, static_cluster, cluster_xml_uri,
  add_endpoint,
}
use matter_lwm2m_bridge.Program.Deploy.{Environment, first_dynamic_endpoint_id}

-- A loader comes back with its file, and the client is idle again.
abbrev pub Loaded : Documents → Client → Type 0
Loaded d c = IsIdle c × (c.documents ≡ d)

abbrev pub Loads : Documents → Flow Client → Type 0
Loads d m = Completes (Loaded d) m

finished-Loads :
    (d : Documents) (b : Buffer) (r : Run) → Gives d b r → ClosesUp r → Loads d (finished r)
finished-Loads d b (State.returned v c) (e, _) (idle, _) = (c, refl, (idle, e))
finished-Loads d b (terminated c) h k = absurd h
finished-Loads d b (looping c) h k = absurd h

module _ (lib : Libcoap) (payload : Bytes) (serving : IsServing lib (some payload)) where
  exchange-Loads :
      (store : Bytes → Documents → Option Documents) (d' : Documents) (fuel : ℕ) (u : Bytes)
      (c : Client)
      → IsIdle c
      → store payload c.documents ≡ some d'
      → Loads d' (finished (exchange lib (load_request store) (suc (suc fuel)) u c))
  exchange-Loads store d' fuel u c idle e =
      finished-Loads d' c.answer _
        (load_request-Gives lib payload serving store d' fuel u c idle.no_response e)
        (exchange-ClosesUp lib (load_request store) (suc (suc fuel)) u c (on_payload-IsTame store)
          idle)

-- The client's documents do not matter for it to be idle.
pub IsIdle-documents : (c : Client) (d : Documents) → IsIdle c → IsIdle (record c { documents = d })
IsIdle-documents c d h = record {
  nothing_held = record {
    context_held = h.nothing_held.context_held;
    session_held = h.nothing_held.session_held;
    library_held = h.nothing_held.library_held;
  };
  ctx_null = h.ctx_null;
  session_null = h.session_null;
  optlist_null = h.optlist_null;
  no_response = h.no_response;
}

-- An environment in which every download brings the same payload, which the parsers and the converter
-- take, and in which the SDK accepts every endpoint.
pub record IsWorking {Table : Type 0} (env : Environment Table) (payload : Bytes) (j : Json)
    (m : MatterIpsoMapping) : Type 0 where
  pub serves : IsServing env.lib (some payload)
  pub parses : env.parsers.parse payload ≡ some j
  pub model : env.converter.SdfModel
  pub models : env.converter.parse_sdf_model j ≡ some model
  pub mapping : env.converter.SdfMapping
  pub mappings : env.converter.parse_sdf_mapping j ≡ some mapping
  pub maps : generate_matter_ipso_mapping j ≡ ok m
  pub accepts :
      (ep : EndpointType) (index id : ℕ) (t : Table)
      → (env.endpoints.set_dynamic_endpoint ep index id t).0 ≡ status_success
  pub fuel : ℕ
  pub client_fuel_enough : env.client_fuel ≡ suc (suc fuel)
  pub rounds : ℕ
  pub endpoint_fuel_enough : env.endpoint_fuel ≡ suc rounds

module _ {Table : Type 0} (set : ℕ → ℕ → Table → EmberAfStatus × Table) (clear : ℕ → Table → Table)
    (first : ℕ) (accepts : (index id : ℕ) (t : Table) → (set index id t).0 ≡ status_success) where
  abbrev Returns : AddResult Table → Type 0
  Returns r = (v : ℤ) × (s' : EndpointState Table) × (r ≡ returned v s')

  add_from-Returns :
      (fuel dev : ℕ) (slots : Devices) (index : ℕ) (s : EndpointState Table)
      → Returns (add_from set clear first (suc fuel) dev slots index s)
  unfolding add_from try_endpoints
  add_from-Returns fuel dev [] index s = (_, _, refl)
  add_from-Returns fuel dev (none ∷ slots) index s =
      rw (accepts index s.g_current_endpoint_id s.table, try_endpoints) (_, _, refl)
  add_from-Returns fuel dev (some d ∷ slots) index s = add_from-Returns fuel dev slots (suc index) s

module _ {Table : Type 0} (env : Environment Table) (payload : Bytes) (j : Json)
    (m : MatterIpsoMapping) (working : IsWorking env payload j m) where
  open env use {lib, parsers, converter, copy_string, ids, client_fuel, endpoint_fuel}

  pub load-Loads :
      (store : Bytes → Documents → Option Documents) (d' : Documents) (u : Bytes) (c : Client)
      → IsIdle c
      → store payload c.documents ≡ some d'
      → Loads d' (finished (exchange lib (load_request store) client_fuel u c))
  load-Loads store d' u c idle e =
      rw working.client_fuel_enough
        (exchange-Loads lib payload working.serves store d' working.fuel u c idle e)

  pub add_endpoint-done :
      (ep : EndpointType) (dev : ℕ) (s : EndpointState Table)
      → Completes
          (λ _. Unit)
          (add_endpoint lib parsers converter copy_string ids env.endpoints.set_dynamic_endpoint
            env.endpoints.clear_dynamic_endpoint
            (first_dynamic_endpoint_id env)
            client_fuel
            endpoint_fuel
            ep
            dev
            s)
  unfolding add_device_endpoint
  add_endpoint-done ep dev s =
      let (v, s', e) =
        add_from-Returns (env.endpoints.set_dynamic_endpoint ep)
          env.endpoints.clear_dynamic_endpoint (first_dynamic_endpoint_id env) (working.accepts ep)
          working.rounds dev s.g_devices 0 s in
      (s', rw (working.endpoint_fuel_enough, e) refl, tt)

  abbrev IsIdleAt : CustomState Table → Type 0
  IsIdleAt s = IsIdle s.client

  load_cluster_definition-done :
      (c : Client)
      → IsIdle c
      → Completes
          (λ r. IsIdle r.1)
          (load_cluster_definition lib parsers converter copy_string ids
            env.endpoints.set_dynamic_endpoint env.endpoints.clear_dynamic_endpoint
            (first_dynamic_endpoint_id env)
            client_fuel
            endpoint_fuel
            c)
  unfolding load_cluster_definition load_cluster_xml_file
  load_cluster_definition-done c idle =
      Completes-bind (Loaded _) _ _ _
        (load-Loads (store_cluster_xml parsers) _ cluster_xml_uri c idle refl)
        λ c' (idle', e). (_, refl, IsIdle-documents c' _ idle')

  pub create_custom_device-done :
      (device : MatterDevice) (clusters : List MatterCluster) (s : CustomState Table)
      → IsIdle s.client
      → Completes
          (λ r. IsIdle r.1.client)
          (create_custom_device lib parsers converter copy_string ids
            env.endpoints.set_dynamic_endpoint env.endpoints.clear_dynamic_endpoint
            (first_dynamic_endpoint_id env)
            client_fuel
            endpoint_fuel
            device
            clusters
            s)
  unfolding create_custom_device
  create_custom_device-done device [] s idle = (_, refl, idle)
  create_custom_device-done device (cluster ∷ _) s idle =
      Completes-bind (λ r. IsIdle r.1) _ _ _ (static_done s.client_cluster)
        λ r idle'.
          Completes-bind (λ _. Unit) _ _ _ (add_endpoint-done _ _ _) λ endpoints _. (_, refl, idle')
    where
      static_done :
          (o : Option MatterCluster)
          → Completes
              (λ r. IsIdle r.1)
              (static_cluster lib parsers converter copy_string ids
                env.endpoints.set_dynamic_endpoint env.endpoints.clear_dynamic_endpoint
                (first_dynamic_endpoint_id env)
                client_fuel
                endpoint_fuel
                o
                s.client)
      static_done (some k) = (_, refl, idle)
      static_done none = load_cluster_definition-done s.client idle

  pub convert_sdf_to_matter-done :
      (model mapping : Json) (known : MatterDevice × List MatterCluster)
      → model ≡ j
      → mapping ≡ j
      → Completes (λ _. Unit) (convert_sdf_to_matter converter model mapping known)
  unfolding convert_sdf_to_matter
  convert_sdf_to_matter-done model mapping known e f =
      Completes-bind (λ _. Unit) _ _ _ (working.model, rw (e, working.models) refl, tt)
        λ sdf_model _.
          Completes-bind (λ _. Unit) _ _ _ (working.mapping, rw (f, working.mappings) refl, tt)
            λ sdf_mapping _. (_, refl, tt)

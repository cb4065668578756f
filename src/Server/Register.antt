-- ===== src/Server/Register.antt =====
-- The registration of resources: `RegisterAttributeRWResource`, `RegisterAttributeResource` and
-- `RegisterCommandResource` of main/CoapServer.cpp, the structures of main/include/LwM2MObject.hpp, and
-- `GenerateCoapResource` of main/main.cpp.
use mathlib.Core.Logic.{ite}
use matter_lwm2m_bridge.Base.{
  ℕ, ℤ, ◌≡◌, Bool, true, false, Option, none, some, List, [], ◌∷◌, ◌++◌, put, if◌then◌else◌,
}
use matter_lwm2m_bridge.Text.{Bytes, codes, Bytes_discrete, to_string, index_of}
use matter_lwm2m_bridge.Server.Forward.{TypeMap}

-- The methods of the requests; the server registers handlers for the first two.
pub data Method : Type 0 where
  get put_method other_method : Method

-- The handlers of the server.
pub data Handler : Type 0 where
  attribute_get attribute_put command_put : Handler

abbrev pub same_method : Method → Method → Bool
same_method get get = true
same_method put_method put_method = true
same_method other_method other_method = true
same_method _ _ = false

-- The resources of the CoAP library, with what the server relies on: a handler is registered for one
-- method, and a resource takes the place of another one with the same path.
pub record CoapResources : Type 1 where
  pub Resource : Type 0
  pub Context : Type 0
  pub resource_init : Bytes → Resource
  pub register_handler : Method → Handler → Resource → Resource
  pub add_resource : Resource → Context → Context
  pub path_of : Resource → Bytes
  pub handler_of : Method → Resource → Option Handler
  pub lookup : Bytes → Method → Context → Option Handler
  pub path_of_init : (uri : Bytes) → path_of (resource_init uri) ≡ uri
  pub path_of_register :
      (m : Method) (h : Handler) (r : Resource) → path_of (register_handler m h r) ≡ path_of r
  pub handler_of_init : (m : Method) (uri : Bytes) → handler_of m (resource_init uri) ≡ none
  pub handler_of_register :
      (n m : Method) (h : Handler) (r : Resource)
      → handler_of n (register_handler m h r) ≡ (if same_method m n then some h else handler_of n r)
  pub lookup_add :
      (uri : Bytes) (m : Method) (r : Resource) (c : Context)
      → lookup uri m (add_resource r c)
        ≡ ite (Bytes_discrete (path_of r) uri) (handler_of m r) (lookup uri m c)

pub record ResourceDefinition : Type 0 where
  pub id : ℤ
  pub name : Bytes
  pub type : Bytes
  pub operations : Bytes
  pub instance_mandatory : Bool
  pub state : Bytes

pub record ObjectDefinition : Type 0 where
  pub id : ℤ
  pub name : Bytes
  pub resources : List ResourceDefinition

-- `operations.find(c) != npos`
abbrev pub has_operation : ℕ → ResourceDefinition → Bool
has_operation c r = elim (index_of c r.operations) [ none ↦ false | some _ ↦ true ]

-- The URI that is built for a resource of an object, `<object>/0/<resource>`.
abbrev pub resource_uri : ℤ → ℤ → Bytes
resource_uri object_id resource_id = to_string object_id ++ codes "/0/" ++ to_string resource_id

module _ (coap : CoapResources) where
  -- The globals `coap_ctx` and `type_map`.
  pub record ServerState : Type 0 where
    pub coap_ctx : coap.Context
    pub type_map : TypeMap

  unfoldable pub register_attribute_rw_resource : Bytes → Bytes → ServerState → ServerState
  register_attribute_rw_resource uri type s =
      let resource = coap.resource_init uri in
      let with_get = coap.register_handler get attribute_get resource in
      let with_put = coap.register_handler put_method attribute_put with_get in
      record {
        coap_ctx = coap.add_resource with_put s.coap_ctx;
        type_map = put Bytes_discrete uri type s.type_map;
      }

  -- A method that is neither GET nor PUT gets no handler.
  abbrev with_handler : Method → coap.Resource → coap.Resource
  with_handler get resource = coap.register_handler get attribute_get resource
  with_handler put_method resource = coap.register_handler put_method attribute_put resource
  with_handler other_method resource = resource

  unfoldable pub register_attribute_resource : Bytes → Method → Bytes → ServerState → ServerState
  register_attribute_resource uri method type s = record {
    coap_ctx = coap.add_resource (with_handler method (coap.resource_init uri)) s.coap_ctx;
    type_map = put Bytes_discrete uri type s.type_map;
  }

  unfoldable pub register_command_resource : Bytes → ServerState → ServerState
  register_command_resource uri s =
      let resource = coap.register_handler put_method command_put (coap.resource_init uri) in
      record s { coap_ctx = coap.add_resource resource s.coap_ctx }

  -- The tests of the loop's body on the operations; an executable resource is registered behind the
  -- readable or writable one.
  unfoldable pub register_by : Bool → Bool → Bool → Bytes → Bytes → ServerState → ServerState
  register_by readable writable executable uri type s =
      let attribute =
        if readable
        then (if writable
            then register_attribute_rw_resource uri type s
            else register_attribute_resource uri get type s)
        else (if writable then register_attribute_resource uri put_method type s else s) in
      if executable then register_command_resource uri attribute else attribute

  unfoldable pub generate_resource : ℤ → ResourceDefinition → ServerState → ServerState
  generate_resource object_id r s =
      register_by (has_operation b'R' r) (has_operation b'W' r) (has_operation b'E' r)
        (resource_uri object_id r.id) r.type s

  unfoldable pub generate_resources : ℤ → List ResourceDefinition → ServerState → ServerState
  generate_resources object_id [] s = s
  generate_resources object_id (r ∷ rs) s =
      generate_resources object_id rs (generate_resource object_id r s)

  unfoldable pub generate_coap_resource : ObjectDefinition → ServerState → ServerState
  generate_coap_resource o s = generate_resources o.id o.resources s

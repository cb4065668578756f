-- ===== src/Server/Serving.antt =====
-- Which handler the server calls for a resource of the object definition, behind
-- `GenerateCoapResource` of main/main.cpp.
use matter_lwm2m_bridge.Base.{
  ℤ, ◌≡◌, ◌≢◌, refl, sym, ap, ◌∙◌, Bool, true, false, ◌||◌, Option, some, List, [], ◌∷◌, ◌++◌, put,
  find, find-put, if◌then◌else◌, All, IsInt32, Bool-cases, inl, inr,
}
use matter_lwm2m_bridge.Text.{ite_of_eq, ite_of_ne, Bytes, Bytes_discrete}
use matter_lwm2m_bridge.Server.Forward.{ids_of_uri}
use matter_lwm2m_bridge.Server.Register.{
  Method, Handler, CoapResources, ResourceDefinition, ObjectDefinition, has_operation, resource_uri,
  ServerState, register_attribute_rw_resource, register_attribute_resource,
  register_command_resource, register_by, generate_resource, generate_resources,
  generate_coap_resource,
}
use matter_lwm2m_bridge.Server.Routes.{
  served, ids_of_uri-resource_uri, lookup-register_by, lookup-register_by_other,
}

-- Two resources of an object have two URIs.
resource_uri-ne :
    (object_id i j : ℤ)
    → IsInt32 object_id
    → IsInt32 i
    → IsInt32 j
    → i ≢ j
    → resource_uri object_id i ≢ resource_uri object_id j
resource_uri-ne object_id i j h k l n e =
    let read = ids_of_uri-resource_uri object_id in
    let same = sym (read i h k) ∙ ap ids_of_uri e ∙ read j h l in n cc

abbrev readable_or_writable : ResourceDefinition → Bool
readable_or_writable r = has_operation b'R' r || has_operation b'W' r

module _ (coap : CoapResources) where
  -- What the server does for a method on the path of `r`, and the type it knows of it.
  abbrev pub handler_at : Bytes → Method → ServerState coap → Option Handler
  handler_at uri m s = coap.lookup uri m s.coap_ctx

  type_map-register_by :
      (r w e : Bool) (uri type : Bytes) (s : ServerState coap)
      → (register_by coap r w e uri type s).type_map
        ≡ (if r || w then put Bytes_discrete uri type s.type_map else s.type_map)
  unfolding register_by register_attribute_rw_resource register_attribute_resource
      register_command_resource
  type_map-register_by true true true uri type s = refl
  type_map-register_by true true false uri type s = refl
  type_map-register_by true false true uri type s = refl
  type_map-register_by true false false uri type s = refl
  type_map-register_by false true true uri type s = refl
  type_map-register_by false true false uri type s = refl
  type_map-register_by false false true uri type s = refl
  type_map-register_by false false false uri type s = refl

  abbrev pub type_at : Bytes → ServerState coap → Option Bytes
  type_at uri s = find Bytes_discrete uri s.type_map

  type_at-register_by :
      (r w e : Bool) (uri type : Bytes) (s : ServerState coap)
      → (r || w) ≡ true
      → type_at uri (register_by coap r w e uri type s) ≡ some type
  type_at-register_by r w e uri type s h =
      rw (type_map-register_by r w e uri type s, h, find-put Bytes_discrete uri uri type s.type_map)
        (ite_of_eq uri uri _ _ refl)

  type_at-register_by_other :
      (r w e : Bool) (uri other type : Bytes) (s : ServerState coap)
      → uri ≢ other
      → type_at other (register_by coap r w e uri type s) ≡ type_at other s
  type_at-register_by_other r w e uri other type s n = elim (Bool-cases (r || w)) [
    | inl h ↦
        rw
          (
            type_map-register_by r w e uri type s,
            h,
            find-put Bytes_discrete uri other type s.type_map,
          )
          (ite_of_ne uri other _ _ n)
    | inr h ↦ rw (type_map-register_by r w e uri type s, h) refl
  ]

  -- The resources behind `r` have other ids, so they leave its path alone.
  unchanged-generate_resources :
      (object_id id : ℤ) (rs : List ResourceDefinition) (m : Method) (s : ServerState coap)
      → IsInt32 object_id
      → IsInt32 id
      → All (λ q. IsInt32 q.id × (q.id ≢ id)) rs
      → (handler_at (resource_uri object_id id) m (generate_resources coap object_id rs s)
          ≡ handler_at (resource_uri object_id id) m s)
        × (type_at (resource_uri object_id id) (generate_resources coap object_id rs s)
            ≡ type_at (resource_uri object_id id) s)
  unfolding generate_resources generate_resource
  unchanged-generate_resources object_id id [] m s h k hs = (refl, refl)
  unchanged-generate_resources object_id id (q ∷ rs) m s h k ((l, n), hs) =
      let ne = resource_uri-ne object_id q.id id h l k n in
      let (rest, rest_type) = unchanged-generate_resources object_id id rs m _ h k hs in
      (
        rest ∙ lookup-register_by_other coap _ _ _ _ _ q.type m s ne,
        rest_type ∙ type_at-register_by_other _ _ _ _ _ q.type s ne,
      )

  generate_resources-append :
      (object_id : ℤ) (before after : List ResourceDefinition) (s : ServerState coap)
      → generate_resources coap object_id (before ++ after) s
        ≡ generate_resources coap object_id after (generate_resources coap object_id before s)
  unfolding generate_resources
  generate_resources-append object_id [] after s = refl
  generate_resources-append object_id (q ∷ before) after s =
      generate_resources-append object_id before after (generate_resource coap object_id q s)

  -- A resource of the definition that has an operation R, W or E, whose id and the object's are `int`s
  -- and no later resource repeats, is served on `<object>/0/<resource>`: an executable one by the
  -- command handler for PUT alone, which takes the place of its attribute handlers, any other one by
  -- the attribute's GET handler if it is readable and PUT handler if it is writable. If it is readable
  -- or writable, its type is known under that path.
  pub generate_coap_resource-serves :
      (o : ObjectDefinition) (before after : List ResourceDefinition) (r : ResourceDefinition)
      (m : Method) (s : ServerState coap)
      → o.resources ≡ before ++ r ∷ after
      → IsInt32 o.id
      → IsInt32 r.id
      → All (λ q. IsInt32 q.id × (q.id ≢ r.id)) after
      → (has_operation b'R' r || (has_operation b'W' r || has_operation b'E' r)) ≡ true
      → (handler_at (resource_uri o.id r.id) m (generate_coap_resource coap o s)
          ≡ served (has_operation b'R' r) (has_operation b'W' r) (has_operation b'E' r) m)
        × ((has_operation b'R' r || has_operation b'W' r) ≡ true
            → type_at (resource_uri o.id r.id) (generate_coap_resource coap o s) ≡ some r.type)
  unfolding generate_coap_resource generate_resources generate_resource
  generate_coap_resource-serves o before after r m s e h k hs op =
      let (rest, rest_type) = unchanged-generate_resources o.id r.id after m _ h k hs in
      rw (e, generate_resources-append o.id before (r ∷ after) s)
        (
          rest ∙ lookup-register_by coap _ _ _ (resource_uri o.id r.id) r.type m _ op,
          λ rw_op. rest_type ∙ type_at-register_by _ _ _ (resource_uri o.id r.id) r.type _ rw_op,
        )

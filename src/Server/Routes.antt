-- ===== src/Server/Routes.antt =====
-- The resources that `GenerateCoapResource` of main/main.cpp leaves on the server.
use matter_lwm2m_bridge.Base.{
  ℤ, ◌≡◌, ◌≢◌, refl, sym, ap, ◌∙◌, Bool, true, false, ◌||◌, Option, none, some, [], ◌∷◌, ◌++◌,
  append_assoc, if◌then◌else◌, IsInt32, ok, arith,
}
use matter_lwm2m_bridge.Text.{
  ite_of_eq, ite_of_ne, Bytes, codes, slash, Lacks, to_string, split_string,
}
use matter_lwm2m_bridge.Text.Decimal.{stoi-to_string, to_string-Lacks}
use matter_lwm2m_bridge.Text.Split.{split_string_three}
use matter_lwm2m_bridge.Server.Forward.{ids_of_uri}
use matter_lwm2m_bridge.Server.Register.{
  Method, get, put_method, other_method, Handler, attribute_get, attribute_put, command_put,
  same_method, CoapResources, resource_uri, ServerState, register_attribute_rw_resource,
  register_attribute_resource, register_command_resource, register_by,
}

-- The handler for a method, given whether the resource is readable, writable and executable.
abbrev pub served : Bool → Bool → Bool → Method → Option Handler
served readable writable true put_method = some command_put
served readable writable true _ = none
served readable true false put_method = some attribute_put
served true writable false get = some attribute_get
served _ _ false _ = none

uri_parts :
    (a b : Bytes)
    → Lacks slash a
    → Lacks slash b
    → split_string (a ++ codes "/0/" ++ b) slash ≡ a ∷ codes "0" ∷ b ∷ []
uri_parts a b h k =
    let zero_part : Lacks slash (codes "0") = ((λ e. omega (arith, e)), tt) in
    ap (λ t. split_string t slash) (simp append_assoc refl)
    ∙ split_string_three slash a (codes "0") b h zero_part k

-- The ids are read back from the URI that is built of them.
pub ids_of_uri-resource_uri :
    (object_id resource_id : ℤ)
    → IsInt32 object_id
    → IsInt32 resource_id
    → ids_of_uri (resource_uri object_id resource_id) ≡ ok (object_id, resource_id)
unfolding ids_of_uri
ids_of_uri-resource_uri object_id resource_id h k =
    rw
      (
        uri_parts (to_string object_id) (to_string resource_id) (to_string-Lacks object_id)
            (to_string-Lacks resource_id),
        stoi-to_string object_id h,
        stoi-to_string resource_id k,
      )
      refl

module _ (coap : CoapResources) where
  lookup-added :
      (uri : Bytes) (m : Method) (r : coap.Resource) (c : coap.Context)
      → coap.path_of r ≡ uri
      → coap.lookup uri m (coap.add_resource r c) ≡ coap.handler_of m r
  lookup-added uri m r c e = coap.lookup_add uri m r c ∙ ite_of_eq (coap.path_of r) uri _ _ e

  lookup-added_other :
      (uri other : Bytes) (m : Method) (r : coap.Resource) (c : coap.Context)
      → coap.path_of r ≡ uri
      → uri ≢ other
      → coap.lookup other m (coap.add_resource r c) ≡ coap.lookup other m c
  lookup-added_other uri other m r c e n =
      coap.lookup_add other m r c ∙ ite_of_ne (coap.path_of r) other _ _ (λ d. n (sym e ∙ d))

  -- The resource with one handler, and the one with two.
  abbrev one : Bytes → Method → Handler → coap.Resource
  one uri m h = coap.register_handler m h (coap.resource_init uri)

  abbrev two : Bytes → coap.Resource
  two uri = coap.register_handler put_method attribute_put (one uri get attribute_get)

  path_of-one : (uri : Bytes) (m : Method) (h : Handler) → coap.path_of (one uri m h) ≡ uri
  path_of-one uri m h = coap.path_of_register m h _ ∙ coap.path_of_init uri

  path_of-two : (uri : Bytes) → coap.path_of (two uri) ≡ uri
  path_of-two uri = coap.path_of_register _ _ _ ∙ path_of-one uri get attribute_get

  handler_of-one :
      (uri : Bytes) (n m : Method) (h : Handler)
      → coap.handler_of n (one uri m h) ≡ (if same_method m n then some h else none)
  handler_of-one uri n m h = rw (coap.handler_of_register, coap.handler_of_init) refl

  handler_of-two :
      (uri : Bytes) (n : Method) → coap.handler_of n (two uri) ≡ served true true false n
  handler_of-two uri get =
      coap.handler_of_register _ _ _ _ ∙ handler_of-one uri get get attribute_get
  handler_of-two uri put_method = coap.handler_of_register _ _ _ _
  handler_of-two uri other_method =
      coap.handler_of_register _ _ _ _ ∙ handler_of-one uri other_method get attribute_get

  lookup-one :
      (uri : Bytes) (n m : Method) (h : Handler) (c : coap.Context)
      → coap.lookup uri n (coap.add_resource (one uri m h) c)
        ≡ (if same_method m n then some h else none)
  lookup-one uri n m h c = lookup-added uri n _ c (path_of-one uri m h) ∙ handler_of-one uri n m h

  pub lookup-register_by :
      (r w e : Bool) (uri type : Bytes) (m : Method) (s : ServerState coap)
      → (r || (w || e)) ≡ true
      → coap.lookup uri m (register_by coap r w e uri type s).coap_ctx ≡ served r w e m
  unfolding register_by register_attribute_rw_resource register_attribute_resource
      register_command_resource
  lookup-register_by r w true uri type get s h = lookup-one uri get put_method command_put _
  lookup-register_by r w true uri type put_method s h =
      lookup-one uri put_method put_method command_put _
  lookup-register_by r w true uri type other_method s h =
      lookup-one uri other_method put_method command_put _
  lookup-register_by true true false uri type m s h =
      lookup-added uri m _ _ (path_of-two uri) ∙ handler_of-two uri m
  lookup-register_by true false false uri type get s h = lookup-one uri get get attribute_get _
  lookup-register_by true false false uri type put_method s h =
      lookup-one uri put_method get attribute_get _
  lookup-register_by true false false uri type other_method s h =
      lookup-one uri other_method get attribute_get _
  lookup-register_by false true false uri type get s h =
      lookup-one uri get put_method attribute_put _
  lookup-register_by false true false uri type put_method s h =
      lookup-one uri put_method put_method attribute_put _
  lookup-register_by false true false uri type other_method s h =
      lookup-one uri other_method put_method attribute_put _
  lookup-register_by false false false uri type m s h = cc

  pub lookup-register_by_other :
      (r w e : Bool) (uri other type : Bytes) (m : Method) (s : ServerState coap)
      → uri ≢ other
      → coap.lookup other m (register_by coap r w e uri type s).coap_ctx
        ≡ coap.lookup other m s.coap_ctx
  unfolding register_by register_attribute_rw_resource register_attribute_resource
      register_command_resource
  lookup-register_by_other true true true uri other type m s n =
      lookup-added_other uri other m _ _ (path_of-one uri put_method command_put) n
      ∙ lookup-added_other uri other m _ _ (path_of-two uri) n
  lookup-register_by_other true false true uri other type m s n =
      lookup-added_other uri other m _ _ (path_of-one uri put_method command_put) n
      ∙ lookup-added_other uri other m _ _ (path_of-one uri get attribute_get) n
  lookup-register_by_other false true true uri other type m s n =
      lookup-added_other uri other m _ _ (path_of-one uri put_method command_put) n
      ∙ lookup-added_other uri other m _ _ (path_of-one uri put_method attribute_put) n
  lookup-register_by_other false false true uri other type m s n =
      lookup-added_other uri other m _ _ (path_of-one uri put_method command_put) n
  lookup-register_by_other true true false uri other type m s n =
      lookup-added_other uri other m _ _ (path_of-two uri) n
  lookup-register_by_other true false false uri other type m s n =
      lookup-added_other uri other m _ _ (path_of-one uri get attribute_get) n
  lookup-register_by_other false true false uri other type m s n =
      lookup-added_other uri other m _ _ (path_of-one uri put_method attribute_put) n
  lookup-register_by_other false false false uri other type m s n = refl

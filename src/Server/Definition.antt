-- ===== src/Server/Definition.antt =====
-- `ParseObjectDefinition` of main/include/LwM2MObject.hpp over the nodes of pugixml.
use mathlib.Core.Logic.{ite}
use matter_lwm2m_bridge.Base.{
  ℤ, ◌≡◌, refl, sym, ap, ◌∙◌, Bool, true, false, Option, none, some, List, [], ◌∷◌, map, find, All,
  IsInt32,
}
use matter_lwm2m_bridge.Text.{Bytes, codes, Bytes_discrete, to_string}
use matter_lwm2m_bridge.Json.{Xml, node, Children, no_children, child}
use matter_lwm2m_bridge.Server.Register.{ResourceDefinition, ObjectDefinition}

-- The accessors of pugixml. A node is `none` where it is the library's null node, whose text is empty.
pub record Pugixml : Type 0 where
  pub child_of : Bytes → Option Xml → Option Xml
  pub children_of : Bytes → Option Xml → List Xml
  pub attribute_as_int : Bytes → Option Xml → ℤ
  pub text_as_int : Option Xml → ℤ
  pub text_as_string : Option Xml → Bytes
  pub text_as_bool : Option Xml → Bool

module _ (pugi : Pugixml) where
  open pugi use {child_of, children_of, attribute_as_int, text_as_int, text_as_string, text_as_bool}

  -- The body of the loop. The member `state` is left empty.
  unfoldable pub parse_resource_definition : Xml → ResourceDefinition
  parse_resource_definition item = record {
    id = attribute_as_int (codes "ID") (some item);
    name = text_as_string (child_of (codes "Name") (some item));
    type = text_as_string (child_of (codes "Type") (some item));
    operations = text_as_string (child_of (codes "Operations") (some item));
    instance_mandatory = text_as_bool (child_of (codes "InstanceMandatory") (some item));
    state = [];
  }

  unfoldable pub parse_resources : List Xml → List ResourceDefinition
  unfolding parse_resource_definition
  parse_resources [] = []
  parse_resources (item ∷ items) = parse_resource_definition item ∷ parse_resources items

  -- The document is given by its document element.
  unfoldable pub parse_object_definition : Xml → ObjectDefinition
  unfolding parse_resources
  parse_object_definition document =
      let object_node = child_of (codes "Object") (some document) in
      record {
        id = text_as_int (child_of (codes "ObjectID") object_node);
        name = text_as_string (child_of (codes "Name") object_node);
        resources =
            parse_resources (children_of (codes "Item") (child_of (codes "Resources") object_node));
      }

abbrev pub name_of : Xml → Bytes
name_of (node name _ _ _) = name

-- The first child of that name, and all of them in their order.
abbrev pub first_named : Bytes → Children → Option Xml
first_named k no_children = none
first_named k (child x xs) = ite (Bytes_discrete (name_of x) k) (some x) (first_named k xs)

abbrev pub all_named : Bytes → Children → List Xml
all_named k no_children = []
all_named k (child x xs) = ite (Bytes_discrete (name_of x) k) (x ∷ all_named k xs) (all_named k xs)

-- What pugixml documents of its accessors.
pub record IsPugixml (pugi : Pugixml) : Type 0 where
  pub finds_child :
      (k name text : Bytes) (attributes : List (Bytes × Bytes)) (children : Children)
      → pugi.child_of k (some (node name attributes text children)) ≡ first_named k children
  pub finds_children :
      (k name text : Bytes) (attributes : List (Bytes × Bytes)) (children : Children)
      → pugi.children_of k (some (node name attributes text children)) ≡ all_named k children
  pub reads_attribute :
      (k name text : Bytes) (attributes : List (Bytes × Bytes)) (children : Children) (i : ℤ)
      → IsInt32 i
      → find Bytes_discrete k attributes ≡ some (to_string i)
      → pugi.attribute_as_int k (some (node name attributes text children)) ≡ i
  pub reads_int :
      (name : Bytes) (attributes : List (Bytes × Bytes)) (children : Children) (i : ℤ)
      → IsInt32 i
      → pugi.text_as_int (some (node name attributes (to_string i) children)) ≡ i
  pub reads_string :
      (name text : Bytes) (attributes : List (Bytes × Bytes)) (children : Children)
      → pugi.text_as_string (some (node name attributes text children)) ≡ text
  pub reads_true :
      (name : Bytes) (attributes : List (Bytes × Bytes)) (children : Children)
      → pugi.text_as_bool (some (node name attributes (codes "true") children)) ≡ true
  pub reads_false :
      (name : Bytes) (attributes : List (Bytes × Bytes)) (children : Children)
      → pugi.text_as_bool (some (node name attributes (codes "false") children)) ≡ false

-- An element with a text alone.
abbrev text_node : Bytes → Bytes → Xml
text_node name text = node name [] text no_children

abbrev bool_text : Bool → Bytes
bool_text true = codes "true"
bool_text false = codes "false"

-- A document of an object definition: the elements that the parser reads, and no others.
abbrev pub item_of : ResourceDefinition → Xml
item_of r = node (codes "Item") ((codes "ID", to_string r.id) ∷ []) [] (
    child (text_node (codes "Name") r.name) (
      child (text_node (codes "Operations") r.operations) (
        child (text_node (codes "InstanceMandatory") (bool_text r.instance_mandatory))
          (child (text_node (codes "Type") r.type) no_children))))

abbrev pub items_of : List ResourceDefinition → Children
items_of [] = no_children
items_of (r ∷ rs) = child (item_of r) (items_of rs)

abbrev pub document_of : ObjectDefinition → Xml
document_of o = node (codes "LWM2M") [] [] (
    child
      (node (codes "Object") [] [] (
        child (text_node (codes "Name") o.name) (
          child (text_node (codes "ObjectID") (to_string o.id))
            (child (node (codes "Resources") [] [] (items_of o.resources)) no_children))))
      no_children)

-- A resource whose id is an `int` and whose state is empty.
abbrev pub IsDefined : ResourceDefinition → Type 0
IsDefined r = IsInt32 r.id × (r.state ≡ [])

module _ (pugi : Pugixml) (laws : IsPugixml pugi) where
  all_named-items_of :
      (rs : List ResourceDefinition) → all_named (codes "Item") (items_of rs) ≡ map item_of rs
  unfolding Bytes_discrete
  all_named-items_of [] = refl
  all_named-items_of (r ∷ rs) = rw (all_named-items_of rs) refl

  reads_bool :
      (name : Bytes) (b : Bool) → pugi.text_as_bool (some (text_node name (bool_text b))) ≡ b
  reads_bool name true = laws.reads_true name [] no_children
  reads_bool name false = laws.reads_false name [] no_children

  parse_resource_definition-item_of :
      (r : ResourceDefinition) → IsDefined r → parse_resource_definition pugi (item_of r) ≡ r
  unfolding parse_resource_definition Bytes_discrete find
  parse_resource_definition-item_of r (small, empty) =
      let read_id =
        laws.reads_attribute (codes "ID") (codes "Item") [] ((codes "ID", to_string r.id) ∷ []) _
          r.id small refl in
      simp (laws.finds_child, laws.reads_string, reads_bool)
        (ap (λ i. record r { id = i; state = [] }) read_id
          ∙ ap (λ t. record r { state = t }) (sym empty))

  parse_resources-items_of :
      (rs : List ResourceDefinition) → All IsDefined rs → parse_resources pugi (map item_of rs) ≡ rs
  unfolding parse_resources
  parse_resources-items_of [] h = refl
  parse_resources-items_of (r ∷ rs) (h, hs) =
      rw (parse_resource_definition-item_of r h, parse_resources-items_of rs hs) refl

  -- Parsing a document of an object definition, with just the elements that the parser reads, gives the
  -- definition back, its resources in their order; under the condition that the ids are `int`s and the
  -- resources carry no state.
  pub parse_object_definition-document_of :
      (o : ObjectDefinition)
      → IsInt32 o.id
      → All IsDefined o.resources
      → parse_object_definition pugi (document_of o) ≡ o
  unfolding parse_object_definition Bytes_discrete
  parse_object_definition-document_of o small h =
      let read_id = laws.reads_int (codes "ObjectID") [] no_children o.id small in
      simp
        (
          laws.finds_child,
          laws.finds_children,
          laws.reads_string,
          read_id,
          all_named-items_of,
          parse_resources-items_of o.resources h,
        )
        refl

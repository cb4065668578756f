-- ===== src/Json.antt =====
-- Values of nlohmann::json and documents of pugixml, as the source receives them from the parsers,
-- which are libraries beside it.
use matter_lwm2m_bridge.Base.{ℤ, Bool, List}
use matter_lwm2m_bridge.Text.{Bytes}

-- The members of an object stand in the order in which an iterator of the library visits them.
mutual
  pub data Json : Type 0 where
    null : Json
    boolean : Bool → Json
    number_integer : ℤ → Json
    -- A floating-point number, by the integer to which a conversion to an integer type cuts it.
    number_float : ℤ → Json
    string : Bytes → Json
    array : Elements → Json
    object : Members → Json

  pub data Elements : Type 0 where
    no_elements : Elements
    element : Json → Elements → Elements

  pub data Members : Type 0 where
    no_members : Members
    member : Bytes → Json → Members → Members

-- A node with its name, its attributes, its text and its children.
mutual
  pub data Xml : Type 0 where
    node : Bytes → List (Bytes × Bytes) → Bytes → Children → Xml

  pub data Children : Type 0 where
    no_children : Children
    child : Xml → Children → Children

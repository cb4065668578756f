-- ===== src/Mapping/Listed.antt =====
-- `GenerateMatterIpsoMapping` of main/main.cpp on the entries of a mapping file, each about an SDF element
-- of a known kind.
use matter_lwm2m_bridge.Base.{◌<◌, ℤ, ℤ_discrete, List, [], ◌∷◌, ◌++◌, find, length, ◌≡◌}
use matter_lwm2m_bridge.Text.{Bytes, codes, slash, Lacks}
use matter_lwm2m_bridge.Slashes.{size_mod}
use matter_lwm2m_bridge.BiMap.{BiMap, found_or_minus_one, get_ipso_id, get_matter_id}
use matter_lwm2m_bridge.BiMap.Pairs.{turned, add_pair}
use matter_lwm2m_bridge.Mapping.{
  Kind, sdf_thing, sdf_object, sdf_property, sdf_action, sdf_event, other,
}
use matter_lwm2m_bridge.Mapping.Encoded.{Entry, pair_of, FitsInt32}

-- An entry about the element `name` of a kind; `place` is the pointer to what the element stands in.
pub record Item : Type 0 where
  pub place : Bytes
  pub kind : Kind
  pub name : Bytes
  pub matter_id : ℤ
  pub oma_id : ℤ

-- The word of the SDF for a kind.
abbrev pub word_of : Kind → Bytes
word_of sdf_thing = codes "sdfThing"
word_of sdf_object = codes "sdfObject"
word_of sdf_property = codes "sdfProperty"
word_of sdf_action = codes "sdfAction"
word_of sdf_event = codes "sdfEvent"
word_of other = codes "sdfData"

-- The entry of the file: the pointer is `<place>/<word>/<name>`.
abbrev pub entry_of : Item → Entry
entry_of i = record {
  pointer = (i.place ++ slash ∷ word_of i.kind) ++ slash ∷ i.name;
  matter_id = i.matter_id;
  oma_id = i.oma_id;
}

-- The name has no slash, the pointer fits in a string, and the ids are `int`s.
abbrev pub IsItem : Item → Type 0
IsItem i = Lacks slash i.name × (length (entry_of i).pointer < size_mod) × FitsInt32 (entry_of i)

-- The pairs of ids of one kind of element, in the order of the file.
abbrev pub listed : Kind → List Item → List (ℤ × ℤ)
listed kind [] = []
listed kind (i ∷ is) = pair_of kind i.kind (i.matter_id, i.oma_id) (listed kind is)

-- The pairs added one by one, each unless one of its ids stands there already.
abbrev pub added : List (ℤ × ℤ) → List (ℤ × ℤ) → List (ℤ × ℤ)
added [] ps = ps
added (q ∷ qs) ps = added qs (add_pair q.0 q.1 ps)

-- Every lookup, from either side, gives what stands in the list, or -1.
abbrev pub LooksUp : BiMap → List (ℤ × ℤ) → Type 0
LooksUp b ps =
    (id : ℤ)
    → (get_ipso_id id b ≡ found_or_minus_one (find ℤ_discrete id ps))
      × (get_matter_id id b ≡ found_or_minus_one (find ℤ_discrete id (turned ps)))

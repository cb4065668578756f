-- ===== src/Program/Attributes.antt =====
-- The attributes that `CreateCustomDevice` of main/main.cpp declares for a converted cluster.
use mathlib.Core.Logic.{ite}
use matter_lwm2m_bridge.Base.{
  ℕ, ◌≡◌, ◌≢◌, refl, ◌∙◌, Option, none, some, List, [], ◌∷◌, ◌++◌, ◌==◌, ==_of_eq, ==_of_ne,
  if◌then◌else◌, All, length, take_all, length-append, arith, ◌≤◌, ◌<◌, ◌^◌, ◌-◌, ◌%◌, suc,
}
use matter_lwm2m_bridge.Text.{codes, Bytes_discrete}
use matter_lwm2m_bridge.Program.Converter.{MatterAttribute, MatterCluster}
use matter_lwm2m_bridge.Program.Declarations.{
  boolean, int16u, AttributeMetadata, declare_dynamic_attribute, cluster_revision,
  declare_attributes, counted, custom_cluster,
}

-- The first attribute of that id in a cluster's list.
abbrev pub find_attribute : ℕ → List AttributeMetadata → Option AttributeMetadata
find_attribute id [] = none
find_attribute id (m ∷ ms) = if m.id == id then some m else find_attribute id ms

-- What an attribute is declared as.
abbrev pub metadata_of : MatterAttribute → Option AttributeMetadata
metadata_of a =
    ite (Bytes_discrete a.type (codes "bool")) (some (declare_dynamic_attribute a.id boolean 1 0)) (
      ite (Bytes_discrete a.type (codes "uint16"))
        (some (declare_dynamic_attribute a.id int16u 16 0)) none)

-- An attribute without a declaration leaves the search to the rest.
abbrev or_else : Option AttributeMetadata → Option AttributeMetadata → Option AttributeMetadata
or_else none o = o
or_else (some m) o = some m

-- What the loop's body puts in front of the rest, over any two decisions on the type.
abbrev put_declared :
    {P Q : Type 0} → Dec P → Dec Q → ℕ → List AttributeMetadata → List AttributeMetadata
put_declared p q id rest =
    ite p (declare_dynamic_attribute id boolean 1 0 ∷ rest)
      (ite q (declare_dynamic_attribute id int16u 16 0 ∷ rest) rest)

find_attribute-put_declared :
    {P Q : Type 0} (p : Dec P) (q : Dec Q) (id : ℕ) (ms rest : List AttributeMetadata)
    → find_attribute id (put_declared p q id ms ++ rest)
      ≡ or_else
          (ite p
            (some (declare_dynamic_attribute id boolean 1 0))
            (ite q (some (declare_dynamic_attribute id int16u 16 0)) none))
          (find_attribute id (ms ++ rest))
find_attribute-put_declared (yes _) q id ms rest = rw (==_of_eq id id refl) refl
find_attribute-put_declared (no _) (yes _) id ms rest = rw (==_of_eq id id refl) refl
find_attribute-put_declared (no _) (no _) id ms rest = refl

find_attribute-put_declared_other :
    {P Q : Type 0} (p : Dec P) (q : Dec Q) (id other : ℕ) (ms rest : List AttributeMetadata)
    → other ≢ id
    → find_attribute id (put_declared p q other ms ++ rest) ≡ find_attribute id (ms ++ rest)
find_attribute-put_declared_other (yes _) q id other ms rest n = rw (==_of_ne other id n) refl
find_attribute-put_declared_other (no _) (yes _) id other ms rest n = rw (==_of_ne other id n) refl
find_attribute-put_declared_other (no _) (no _) id other ms rest n = refl

find_attribute-declare_attributes_others :
    (id : ℕ) (others : List MatterAttribute) (rest : List AttributeMetadata)
    → All (λ b. b.id ≢ id) others
    → find_attribute id (declare_attributes others ++ rest) ≡ find_attribute id rest
unfolding declare_attributes
find_attribute-declare_attributes_others id [] rest h = refl
find_attribute-declare_attributes_others id (b ∷ others) rest (n, h) =
    find_attribute-put_declared_other (Bytes_discrete b.type (codes "bool"))
      (Bytes_discrete b.type (codes "uint16")) id b.id (declare_attributes others) rest n
    ∙ find_attribute-declare_attributes_others id others rest h

find_attribute-declare_attributes :
    (a : MatterAttribute) (before after : List MatterAttribute) (rest : List AttributeMetadata)
    → All (λ b. b.id ≢ a.id) before
    → find_attribute a.id (declare_attributes (before ++ a ∷ after) ++ rest)
      ≡ or_else (metadata_of a) (find_attribute a.id (declare_attributes after ++ rest))
unfolding declare_attributes
find_attribute-declare_attributes a [] after rest h =
    find_attribute-put_declared (Bytes_discrete a.type (codes "bool"))
      (Bytes_discrete a.type (codes "uint16")) a.id (declare_attributes after) rest
find_attribute-declare_attributes a (b ∷ before) after rest (n, h) =
    find_attribute-put_declared_other (Bytes_discrete b.type (codes "bool"))
      (Bytes_discrete b.type (codes "uint16")) a.id b.id (declare_attributes (before ++ a ∷ after))
      rest n
    ∙ find_attribute-declare_attributes a before after rest h

length-put_declared :
    {P Q : Type 0} (p : Dec P) (q : Dec Q) (id n : ℕ) (ms : List AttributeMetadata)
    → length ms ≤ n
    → length (put_declared p q id ms) ≤ suc n
length-put_declared (yes _) q id n ms h = omega (arith, h)
length-put_declared (no _) (yes _) id n ms h = omega (arith, h)
length-put_declared (no _) (no _) id n ms h = omega (arith, h)

length-declare_attributes : (cs : List MatterAttribute) → length (declare_attributes cs) ≤ length cs
unfolding declare_attributes
length-declare_attributes [] = omega arith
length-declare_attributes (a ∷ rest) =
    length-put_declared (Bytes_discrete a.type (codes "bool"))
      (Bytes_discrete a.type (codes "uint16")) a.id (length rest) (declare_attributes rest)
      (length-declare_attributes rest)

-- The number of attributes is not cut where it fits.
counted_all : (ms : List AttributeMetadata) → length ms < 2 ^ 16 → counted ms ≡ ms
counted_all ms h = let e : length ms % 2 ^ 16 ≡ length ms = omega arith in rw e (take_all ms)

-- In the cluster that is declared for a converted one, an attribute whose id no other one has and that
-- is not the cluster revision's is found as a BOOLEAN of 1 byte if its type is "bool", as an INT16U if
-- its type is "uint16", declared with the number of bits, 16, as its size in bytes, and not at all if
-- it has another type; under the condition that the cluster has fewer than 65535 attributes, so that
-- their number fits in 16 bits.
pub find_attribute-custom_cluster :
    (c : MatterCluster) (a : MatterAttribute) (before after : List MatterAttribute)
    → c.attributes ≡ before ++ a ∷ after
    → All (λ b. b.id ≢ a.id) before
    → All (λ b. b.id ≢ a.id) after
    → 0xFFFD ≢ a.id
    → length c.attributes < 2 ^ 16 - 1
    → find_attribute a.id (custom_cluster c).attributes ≡ metadata_of a
unfolding custom_cluster
find_attribute-custom_cluster c a before after e h k n few =
    rw
      (
        counted_all (declare_attributes c.attributes ++ (cluster_revision ∷ [])) (
            omega (
              arith,
              length-append (declare_attributes c.attributes) (cluster_revision ∷ []),
              length-declare_attributes c.attributes,
            )),
        e,
        find_attribute-declare_attributes a before after (cluster_revision ∷ []) h,
        find_attribute-declare_attributes_others a.id after (cluster_revision ∷ []) k,
        ==_of_ne 0xFFFD a.id n,
      )
      (or_else-none (metadata_of a))
  where
    or_else-none : (o : Option AttributeMetadata) → or_else o none ≡ o
    or_else-none none = refl
    or_else-none (some m) = refl

-- ===== src/Mapping/Unordered.antt =====
-- A mapping file as a set of entries: `GenerateMatterIpsoMapping` does not depend on their order.
use matter_lwm2m_bridge.Base.{
  ℤ, true, Bool-cases, List, [], ◌∷◌, ok, ◌≡◌, inl, inr, refl, sym, All, Memᴰ, head, tail,
  cases_cons, HasSame,
}
use matter_lwm2m_bridge.BiMap.Load.{IsOneToOne}
use matter_lwm2m_bridge.BiMap.Unordered.{IsAlike, load-IsAlike}
use matter_lwm2m_bridge.Mapping.{
  MatterIpsoMapping, no_mapping, Kind, sdf_object, sdf_property, sdf_action, sdf_event,
  generate_matter_ipso_mapping,
}
use matter_lwm2m_bridge.Mapping.Encoded.{
  Entry, encode, entry_kind, is_kind, pairs_of, load_entries, FitsInt32,
  generate_matter_ipso_mapping-encode,
}

-- No two entries of one kind share an id.
abbrev pub IsUnambiguous : List Entry → Type 0
IsUnambiguous es = (kind : Kind) → IsOneToOne (pairs_of kind es)

-- The same lookups in each of the four maps.
pub record HasSameLookups (m n : MatterIpsoMapping) : Type 0 where
  pub clusters : IsAlike m.cluster_object_map n.cluster_object_map
  pub attributes : IsAlike m.attribute_resource_map n.attribute_resource_map
  pub commands : IsAlike m.command_resource_map n.command_resource_map
  pub events : IsAlike m.event_resource_map n.event_resource_map

module _ (kind : Kind) (p : ℤ × ℤ) where
  -- The entry has the kind and the pair of ids.
  abbrev pub HasPair : Entry → Type 0
  HasPair e = (is_kind kind (entry_kind e) ≡ true) × (p ≡ (e.matter_id, e.oma_id))

  pairs_of-Memᴰ :
      (es : List Entry) → Memᴰ p (pairs_of kind es) → (e : Entry) × Memᴰ e es × HasPair e
  pairs_of-Memᴰ [] h = elim h [ ]
  pairs_of-Memᴰ (e ∷ es) h = elim (Bool-cases (is_kind kind (entry_kind e))) [
    | inl t ↦ elim (cases_cons (rw t at h)) [
      | inl q ↦ (e, head refl, (t, q))
      | inr k ↦ let (f, g, w) = pairs_of-Memᴰ es k in (f, tail g, w)
    ]
    | inr t ↦ let (f, g, w) = pairs_of-Memᴰ es (rw t at h) in (f, tail g, w)
  ]

  pub Memᴰ-pairs_of :
      (e : Entry) (es : List Entry) → Memᴰ e es → HasPair e → Memᴰ p (pairs_of kind es)
  Memᴰ-pairs_of e [] k h = elim k [ ]
  Memᴰ-pairs_of e (f ∷ es) (head q) (t, w) = rw (sym q, t) (head w)
  Memᴰ-pairs_of e (f ∷ es) (tail k) h =
      let below = Memᴰ-pairs_of e es k h in
      elim (Bool-cases (is_kind kind (entry_kind f))) [
        | inl t ↦ rw t (tail below)
        | inr t ↦ rw t below
      ]

pairs_of-HasSame :
    (kind : Kind) (es fs : List Entry)
    → HasSame es fs
    → HasSame (pairs_of kind es) (pairs_of kind fs)
pairs_of-HasSame kind es fs same p = (
  (λ h. let (e, k, w) = pairs_of-Memᴰ kind p es h in Memᴰ-pairs_of kind p e fs ((same e).0 k) w),
  (λ h. let (e, k, w) = pairs_of-Memᴰ kind p fs h in Memᴰ-pairs_of kind p e es ((same e).1 k) w),
)

-- Two files with the same entries in whatever order, all ids `int`s and none shared by two entries of
-- one kind, give two mappings, without throwing, in which every lookup in every map, from both sides,
-- is the same.
pub generate_matter_ipso_mapping_unordered :
    (es fs : List Entry)
    → All FitsInt32 es
    → All FitsInt32 fs
    → IsUnambiguous es
    → IsUnambiguous fs
    → HasSame es fs
    → (m : MatterIpsoMapping) × (n : MatterIpsoMapping) × (generate_matter_ipso_mapping (encode es)
        ≡ ok m)
      × (generate_matter_ipso_mapping (encode fs) ≡ ok n)
      × HasSameLookups m n
generate_matter_ipso_mapping_unordered es fs h k o p same =
    let alike = λ (kind : Kind).
      load-IsAlike (pairs_of kind es) (pairs_of kind fs) (o kind) (p kind)
        (pairs_of-HasSame kind es fs same) in
    (
      load_entries es no_mapping,
      load_entries fs no_mapping,
      generate_matter_ipso_mapping-encode es h,
      generate_matter_ipso_mapping-encode fs k,
      record {
        clusters = alike sdf_object;
        attributes = alike sdf_property;
        commands = alike sdf_action;
        events = alike sdf_event;
      },
    )

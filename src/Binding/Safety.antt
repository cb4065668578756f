-- ===== src/Binding/Safety.antt =====
-- Which data main/BindingHandler.cpp can handle for which bindings.
use mathlib.Core.Path.{subst}
use matter_lwm2m_bridge.Base.{
  ℕ, ◌≡◌, refl, sym, ◌↔◌, Bool, true, false, ◌&&◌, ◌||◌, not, none, some, List, [], ◌∷◌, map,
  if◌then◌else◌, ◌==◌, All, inl, inr, Option-cases,
}
use matter_lwm2m_bridge.Binding.{
  Interaction, uint16, boolean, BindingCommandData, OnOffIds, BindingType, Peer, no_peer, not_ready,
  ready, read_uint16, read_boolean, Reaction, nothing, sent, died, null_access, until_end, survives,
  command_of, handle_data, process_write_attribute, process_read_attribute,
  process_on_off_unicast_binding_command, process_on_off_group_binding_command,
  state_changed_handler, switch_worker_function, is_unicast, is_multicast, with_session,
  if_connected,
}

-- A reaction that neither ends the program nor goes through a null pointer.
abbrev pub IsSafe : Reaction → Type 0
IsSafe died = ⊥
IsSafe null_access = ⊥
IsSafe _ = Unit

pub until_end-IsSafe : (rs : List Reaction) → All IsSafe rs → until_end rs ≡ rs
until_end-IsSafe [] h = refl
until_end-IsSafe (nothing ∷ rs) (_, h) = rw (until_end-IsSafe rs h)
until_end-IsSafe (sent i ∷ rs) (_, h) = rw (until_end-IsSafe rs h)
until_end-IsSafe (died ∷ rs) (h, _) = absurd h
until_end-IsSafe (null_access ∷ rs) (h, _) = absurd h

-- Cutting the calls behind the end of the program hides no end.
until_end_reflects : (rs : List Reaction) → All IsSafe (until_end rs) → All IsSafe rs
until_end_reflects [] h = tt
until_end_reflects (nothing ∷ rs) (_, h) = (tt, until_end_reflects rs h)
until_end_reflects (sent i ∷ rs) (_, h) = (tt, until_end_reflects rs h)
until_end_reflects (died ∷ rs) (h, _) = absurd h
until_end_reflects (null_access ∷ rs) (h, _) = absurd h

pub survives-IsSafe : (rs : List Reaction) → All IsSafe rs → survives rs ≡ true
survives-IsSafe [] h = refl
survives-IsSafe (nothing ∷ rs) (_, h) = survives-IsSafe rs h
survives-IsSafe (sent i ∷ rs) (_, h) = survives-IsSafe rs h
survives-IsSafe (died ∷ rs) (h, _) = absurd h
survives-IsSafe (null_access ∷ rs) (h, _) = absurd h

with_session-IsSafe :
    (peer : Peer) (i : Interaction) → IsSafe (with_session peer i) ↔ (peer ≡ ready)
with_session-IsSafe no_peer i = ((λ h. absurd h), (λ e. absurd cc))
with_session-IsSafe not_ready i = ((λ h. absurd h), (λ e. absurd cc))
with_session-IsSafe ready i = ((λ h. refl), (λ e. tt))

-- Where a session is needed, and where it is not.
needed :
    (r : Reaction) (peer : Peer)
    → IsSafe r ↔ (peer ≡ ready)
    → IsSafe r ↔ (true ≡ true → peer ≡ ready)
needed r peer h = ((λ s _. h.0 s), (λ k. h.1 (k refl)))

not_needed : (r : Reaction) (peer : Peer) → IsSafe r → IsSafe r ↔ (false ≡ true → peer ≡ ready)
not_needed r peer h = ((λ _ e. absurd cc), (λ _. h))

-- The tests of the handler, over any outcome of each: a write, a read, a device, a group, the cluster.
ladder-IsSafe :
    (w r u m o : Bool) (write read one group : Reaction) (peer : Peer)
    → IsSafe write ↔ (peer ≡ ready)
    → IsSafe read ↔ (peer ≡ ready)
    → IsSafe one ↔ (peer ≡ ready)
    → IsSafe group
    → IsSafe (
        if w
        then write
        else if r
        then read
        else if u
        then (if o then one else nothing)
        else if m
        then (if o then group else nothing)
        else nothing)
      ↔ ((w || (r || (u && o))) ≡ true → peer ≡ ready)
ladder-IsSafe true r u m o write read one group peer hw hr ho hg = needed write peer hw
ladder-IsSafe false true u m o write read one group peer hw hr ho hg = needed read peer hr
ladder-IsSafe false false true m true write read one group peer hw hr ho hg = needed one peer ho
ladder-IsSafe false false true m false write read one group peer hw hr ho hg =
    not_needed nothing peer tt
ladder-IsSafe false false false true true write read one group peer hw hr ho hg =
    not_needed group peer hg
ladder-IsSafe false false false true false write read one group peer hw hr ho hg =
    not_needed nothing peer tt
ladder-IsSafe false false false false o write read one group peer hw hr ho hg =
    not_needed nothing peer tt

module _ (ids : OnOffIds) where
  -- A write and a read go through the session of whatever is bound, a group included, and a command of
  -- the On/Off cluster to a single device needs its session.
  abbrev pub needs_session : BindingCommandData → BindingType → Bool
  needs_session d type =
      d.write_attribute
      || (d.read_attribute
          || ((is_unicast ids type && not d.is_group) && (d.cluster_id == ids.on_off)))

  -- There is a session where one is needed.
  abbrev pub IsServable : BindingCommandData → BindingType × Peer → Type 0
  IsServable d b = needs_session d b.0 ≡ true → b.1 ≡ ready

  process_on_off-IsSafe :
      (command_id : ℕ)
      → IsSafe (process_on_off_unicast_binding_command ids command_id)
        × IsSafe (process_on_off_group_binding_command ids command_id)
  unfolding process_on_off_unicast_binding_command process_on_off_group_binding_command
  process_on_off-IsSafe command_id = elim (Option-cases (command_of ids command_id)) [
    | inl e ↦ rw (e, IsSafe) (tt, tt)
    | inr (k, e) ↦ rw (e, IsSafe) (tt, tt)
  ]

  if_connected-IsSafe :
      (peer : Peer) (r : Reaction) → IsSafe r → IsSafe (if_connected ids peer r) ↔ (peer ≡ ready)
  if_connected-IsSafe no_peer r h = ((λ k. absurd k), (λ e. absurd cc))
  if_connected-IsSafe not_ready r h = ((λ k. absurd k), (λ e. absurd cc))
  if_connected-IsSafe ready r h = ((λ k. refl), (λ e. h))

  process_read_attribute-IsSafe :
      (d : BindingCommandData) (peer : Peer)
      → IsSafe (process_read_attribute ids d peer) ↔ (peer ≡ ready)
  unfolding process_read_attribute
  process_read_attribute-IsSafe d peer =
      elim d.content
        as (λ content.
          IsSafe (elim content [
            | uint16 _ ↦ with_session peer (read_uint16 d.cluster_id d.attribute_id)
            | boolean _ ↦ with_session peer (read_boolean d.cluster_id d.attribute_id)
          ])
          ↔ (peer ≡ ready)) [
            | uint16 _ ↦ with_session-IsSafe peer _
            | boolean _ ↦ with_session-IsSafe peer _
          ]

  handle_data-IsSafe :
      (d : BindingCommandData) (b : BindingType × Peer)
      → IsSafe (handle_data ids b.0 b.1 d) ↔ IsServable d b
  unfolding handle_data process_write_attribute
  handle_data-IsSafe d (type, peer) =
      let (one, group) = process_on_off-IsSafe d.command_id in
      ladder-IsSafe d.write_attribute d.read_attribute (is_unicast ids type && not d.is_group)
        (is_multicast ids type && d.is_group) (d.cluster_id == ids.on_off) _ _ _ _ peer
        (with_session-IsSafe peer _) (process_read_attribute-IsSafe d peer)
        (if_connected-IsSafe peer _ one) group

  All-handle_data :
      (d : BindingCommandData) (bs : List (BindingType × Peer))
      → All IsSafe (map (λ b. handle_data ids b.0 b.1 d) bs) ↔ All (IsServable d) bs
  All-handle_data d [] = ((λ h. h), (λ h. h))
  All-handle_data d (b ∷ bs) =
      let (f, g) = handle_data-IsSafe d b in
      let (fs, gs) = All-handle_data d bs in ((λ (h, hs). (f h, fs hs)), (λ (h, hs). (g h, gs hs)))

  -- A worker that ends neither at a failed check nor with an access through a null pointer is exactly
  -- one that finds a session for each binding that needs it: for every binding, a group included, if
  -- the data is a write or a read, for each single device if it is a command of the On/Off cluster that
  -- is not for a group, and for none otherwise. Without data nothing happens.
  pub switch_worker_function-IsSafe :
      (bound : ℕ → ℕ → List (BindingType × Peer)) (d : BindingCommandData)
      → (All IsSafe (switch_worker_function ids bound (some d))
          ↔ All (IsServable d) (bound d.local_endpoint_id d.cluster_id))
        × (switch_worker_function ids bound none ≡ [])
  unfolding switch_worker_function state_changed_handler
  switch_worker_function-IsSafe bound d =
      let (f, g) = All-handle_data d (bound d.local_endpoint_id d.cluster_id) in
      (
        (
          (λ h. f (until_end_reflects _ h)),
          (λ h. subst (All IsSafe) (sym (until_end-IsSafe _ (g h))) (g h)),
        ),
        refl,
      )

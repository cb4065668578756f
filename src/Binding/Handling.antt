-- ===== src/Binding/Handling.antt =====
-- What the handler of main/BindingHandler.cpp makes of a write and of a command at one binding.
use matter_lwm2m_bridge.Base.{
  ℕ, ◌/◌, ◌%◌, ◌≡◌, ◌≢◌, refl, sym, ap, ◌∙◌, true, false, Option, none, some, List, [], ◌∷◌, ◌++◌,
  map, ==_of_eq, ==_of_ne, ok, arith,
}
use matter_lwm2m_bridge.Text.{Bytes, codes, Bytes_discrete}
use matter_lwm2m_bridge.Binding.{
  Data, uint16, boolean, BindingCommandData, OnOffIds, OnOffCommand, toggle_command, on_command,
  off_command, BindingType, unused, unicast, multicast, Peer, no_peer, not_ready, ready,
  write_attribute, invoke, Reaction, nothing, sent, died, null_access, command_of, handle_data,
  process_write_attribute, process_on_off_unicast_binding_command,
}
use matter_lwm2m_bridge.Server.Forward.{load_data, load_bool, load_uint16}

-- The type of a resource that holds the data, and its bytes: a truth value in one byte, a number in
-- two, the low one first.
abbrev pub type_of : Data → Bytes
type_of (uint16 n) = codes "Unsigned Integer"
type_of (boolean b) = codes "Boolean"

abbrev pub bytes_of : Data → Bytes
bytes_of (uint16 n) = n % 256 ∷ n / 256 ∷ []
bytes_of (boolean true) = 1 ∷ []
bytes_of (boolean false) = 0 ∷ []

pub load_data-bytes_of :
    (content : Data) (rest : Bytes)
    → load_data (some (type_of content)) (bytes_of content ++ rest) ≡ ok content
unfolding load_data load_bool load_uint16 Bytes_discrete
load_data-bytes_of (uint16 n) rest = ap (λ k. ok (uint16 k)) (omega arith)
load_data-bytes_of (boolean true) rest = refl
load_data-bytes_of (boolean false) rest = refl

-- Two functions that agree on all bindings.
pub map-agree :
    {A : Type 0} (f g : A → Reaction) (xs : List A) → ((a : A) → f a ≡ g a) → map f xs ≡ map g xs
map-agree f g [] e = refl
map-agree f g (x ∷ xs) e = rw (e x, map-agree f g xs e) refl

-- What a write comes to at a binding: it is sent in the session; without one the program ends, and
-- for a group, for which there is no device, it goes through the null pointer.
abbrev pub write_reaction : ℕ → ℕ → Data → BindingType × Peer → Reaction
write_reaction cluster_id attribute_id content (_, ready) =
    sent (write_attribute cluster_id attribute_id content)
write_reaction cluster_id attribute_id content (_, not_ready) = died
write_reaction cluster_id attribute_id content (_, no_peer) = null_access

-- What a command is for the handler: one of the three, another of the On/Off cluster, or one of
-- another cluster.
pub data Effect : Type 0 where
  known : OnOffCommand → Effect
  unknown : Effect
  foreign : Effect

abbrev pub id_of : OnOffIds → OnOffCommand → ℕ
id_of ids toggle_command = ids.toggle
id_of ids on_command = ids.on
id_of ids off_command = ids.off

abbrev pub HasEffect : OnOffIds → ℕ → ℕ → Effect → Type 0
HasEffect ids cluster_id command_id (known k) =
    (cluster_id ≡ ids.on_off) × (command_id ≡ id_of ids k)
HasEffect ids cluster_id command_id unknown =
    (cluster_id ≡ ids.on_off) × ((k : OnOffCommand) → command_id ≢ id_of ids k)
HasEffect ids cluster_id command_id foreign = cluster_id ≢ ids.on_off

abbrev pub AreDistinct : OnOffIds → Type 0
AreDistinct ids = (ids.toggle ≢ ids.on) × (ids.toggle ≢ ids.off) × (ids.on ≢ ids.off)

-- What a command comes to at a binding: it is invoked on a single device that has a session, and the
-- program ends where there is none; groups, other bindings and other clusters get nothing.
abbrev pub command_reaction : Effect → BindingType × Peer → Reaction
command_reaction foreign b = nothing
command_reaction (known k) (unicast, ready) = sent (invoke k)
command_reaction unknown (unicast, ready) = nothing
command_reaction _ (unicast, _) = died
command_reaction _ b = nothing

abbrev IsCommand : BindingCommandData → Type 0
IsCommand d = (d.write_attribute ≡ false) × (d.read_attribute ≡ false) × (d.is_group ≡ false)

module _ (ids : OnOffIds) where
  pub handle_data-write :
      (d : BindingCommandData) (b : BindingType × Peer)
      → d.write_attribute ≡ true
      → handle_data ids b.0 b.1 d ≡ write_reaction d.cluster_id d.attribute_id d.content b
  unfolding handle_data process_write_attribute
  handle_data-write d (type, no_peer) w = rw w refl
  handle_data-write d (type, not_ready) w = rw w refl
  handle_data-write d (type, ready) w = rw w refl

  command_of-id_of : AreDistinct ids → (k : OnOffCommand) → command_of ids (id_of ids k) ≡ some k
  unfolding command_of
  command_of-id_of h toggle_command = rw (==_of_eq ids.toggle ids.toggle refl) refl
  command_of-id_of h on_command =
      rw (==_of_ne ids.on ids.toggle (λ e. h.0 (sym e)), ==_of_eq ids.on ids.on refl) refl
  command_of-id_of h off_command =
      rw
        (
          ==_of_ne ids.off ids.toggle (λ e. h.1 (sym e)),
          ==_of_ne ids.off ids.on (λ e. h.2 (sym e)),
          ==_of_eq ids.off ids.off refl,
        )
        refl

  command_of-unknown :
      (command_id : ℕ)
      → ((k : OnOffCommand) → command_id ≢ id_of ids k)
      → command_of ids command_id ≡ none
  unfolding command_of
  command_of-unknown command_id h =
      rw
        (
          ==_of_ne command_id ids.toggle (h toggle_command),
          ==_of_ne command_id ids.on (h on_command),
          ==_of_ne command_id ids.off (h off_command),
        )
        refl

  -- What a command is, by what the switch over the command finds.
  abbrev found_effect : Option OnOffCommand → Effect
  found_effect none = unknown
  found_effect (some k) = known k

  process_on_off_found :
      (command_id : ℕ) (found : Option OnOffCommand)
      → command_of ids command_id ≡ found
      → process_on_off_unicast_binding_command ids command_id
        ≡ command_reaction (found_effect found) (unicast, ready)
  unfolding process_on_off_unicast_binding_command
  process_on_off_found command_id none e = rw (e, process_on_off_unicast_binding_command) refl
  process_on_off_found command_id (some k) e = rw (e, process_on_off_unicast_binding_command) refl

  pub handle_data-on_off :
      (d : BindingCommandData) (b : BindingType × Peer) (found : Option OnOffCommand)
      → IsCommand d
      → d.cluster_id ≡ ids.on_off
      → command_of ids d.command_id ≡ found
      → handle_data ids b.0 b.1 d ≡ command_reaction (found_effect found) b
  unfolding handle_data process_on_off_unicast_binding_command
  handle_data-on_off d (unused, p) none (w, r, g) c e = rw (w, r) refl
  handle_data-on_off d (unused, p) (some k) (w, r, g) c e = rw (w, r) refl
  handle_data-on_off d (multicast, p) none (w, r, g) c e = rw (w, r, g) refl
  handle_data-on_off d (multicast, p) (some k) (w, r, g) c e = rw (w, r, g) refl
  handle_data-on_off d (unicast, no_peer) none (w, r, g) c e =
      rw (w, r, g, c, ==_of_eq ids.on_off ids.on_off refl) refl
  handle_data-on_off d (unicast, no_peer) (some k) (w, r, g) c e =
      rw (w, r, g, c, ==_of_eq ids.on_off ids.on_off refl) refl
  handle_data-on_off d (unicast, not_ready) none (w, r, g) c e =
      rw (w, r, g, c, ==_of_eq ids.on_off ids.on_off refl) refl
  handle_data-on_off d (unicast, not_ready) (some k) (w, r, g) c e =
      rw (w, r, g, c, ==_of_eq ids.on_off ids.on_off refl) refl
  handle_data-on_off d (unicast, ready) none (w, r, g) c e =
      rw (w, r, g, c, ==_of_eq ids.on_off ids.on_off refl)
        (process_on_off_found d.command_id none e)
  handle_data-on_off d (unicast, ready) (some k) (w, r, g) c e =
      rw (w, r, g, c, ==_of_eq ids.on_off ids.on_off refl)
        (process_on_off_found d.command_id (some k) e)

  handle_data-foreign :
      (d : BindingCommandData) (b : BindingType × Peer)
      → IsCommand d
      → d.cluster_id ≢ ids.on_off
      → handle_data ids b.0 b.1 d ≡ nothing
  unfolding handle_data
  handle_data-foreign d (unused, p) (w, r, g) n = rw (w, r) refl
  handle_data-foreign d (multicast, p) (w, r, g) n = rw (w, r, g) refl
  handle_data-foreign d (unicast, p) (w, r, g) n =
      rw (w, r, g, ==_of_ne d.cluster_id ids.on_off n) refl

  pub handle_data-command :
      (d : BindingCommandData) (e : Effect) (b : BindingType × Peer)
      → AreDistinct ids
      → IsCommand d
      → HasEffect ids d.cluster_id d.command_id e
      → handle_data ids b.0 b.1 d ≡ command_reaction e b
  handle_data-command d (known k) b distinct is (c, h) =
      handle_data-on_off d b (some k) is c (ap (command_of ids) h ∙ command_of-id_of distinct k)
  handle_data-command d unknown b distinct is (c, h) =
      handle_data-on_off d b none is c (command_of-unknown d.command_id h)
  handle_data-command d foreign b distinct is n = handle_data-foreign d b is n

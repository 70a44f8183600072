-- ===== src/Mqtt/Steps/Entries.antt =====
-- What it means for the table of bridges to be well formed, and which changes keep it so.
use mqtt_sensor_exporter.Common.{
  ℕ, ◌<◌, ◌≤◌, ◌≡◌, ◌≢◌, refl, sym, ◌∙◌, ap, String, Bool-cases, inl, inr, none, some, eqb, eqb_iff,
  arith,
}
use mqtt_sensor_exporter.Common.Dict.{lookup}
use mqtt_sensor_exporter.Mqtt.Types.{Bridge, BridgeConnection, State}
use mqtt_sensor_exporter.Mqtt.Manager.{key, set_at}
use mqtt_sensor_exporter.Mqtt.Steps.{Opening, Machine}

-- The connection at an address of the table.
pub record IsEntry {W C : Type 0} (s : State W C) (k : String) (a : ℕ) : Type 0 where
  pub allocated : a < s.next
  pub own_key : key (s.at a).bridge.namespace (s.at a).bridge.name ≡ k
  pub has_client : (s.at a).mqtt_client ≢ none

-- The connection that a running `Connect` has made.
pub record IsOpening {W C : Type 0} (s : State W C) (o : Opening C) : Type 0 where
  pub new : o.address < s.next
  pub same_bridge : (s.at o.address).bridge ≡ o.bridge

-- Every bridge of the table stands under its own key, in a connection that has a client.
pub record IsWellFormed {W C : Type 0} (m : Machine W C) : Type 0 where
  pub entries : (k : String) (a : ℕ) → lookup k m.state.bridges ≡ some a → IsEntry m.state k a
  pub opening_new : (o : Opening C) → m.opening ≡ some o → IsOpening m.state o

-- The fields of a connection that no handler changes.
pub record IsSame {C : Type 0} (x y : BridgeConnection C) : Type 0 where
  pub bridge_same : x.bridge ≡ y.bridge
  pub client_same : x.mqtt_client ≡ y.mqtt_client

module _ {W C : Type 0} where
  abbrev pub IsSameUpTo : (s t : State W C) → Type 0
  IsSameUpTo s t = (a : ℕ) → a < s.next → IsSame (t.at a) (s.at a)

  IsEntry-IsSame :
      (s t : State W C) (k : String) (a : ℕ)
      → s.next ≤ t.next
      → IsSame (t.at a) (s.at a)
      → IsEntry s k a
      → IsEntry t k a
  IsEntry-IsSame s t k a grown same e = record {
    allocated = omega (arith, e.allocated);
    own_key = ap (λ (b : Bridge). key b.namespace b.name) same.bridge_same ∙ e.own_key;
    has_client = λ p. e.has_client (sym same.client_same ∙ p);
  }

  IsOpening-IsSame :
      (s t : State W C) (o : Opening C)
      → s.next ≤ t.next
      → IsSame (t.at o.address) (s.at o.address)
      → IsOpening s o
      → IsOpening t o
  IsOpening-IsSame s t o grown same i = record {
    new = omega (arith, i.new);
    same_bridge = same.bridge_same ∙ i.same_bridge;
  }

  -- A step that adds no entry and leaves the old connections' bridges and clients alone.
  pub IsWellFormed-IsSame :
      (m : Machine W C) (t : State W C)
      → m.state.next ≤ t.next
      → IsSameUpTo m.state t
      → ((k : String) (a : ℕ) → lookup k t.bridges ≡ some a → lookup k m.state.bridges ≡ some a)
      → IsWellFormed m
      → IsWellFormed (record m { state = t })
  IsWellFormed-IsSame m t grown same fewer wf = record {
    entries = λ k a e.
        let old = wf.entries k a (fewer k a e) in
        IsEntry-IsSame m.state t k a grown (same a old.allocated) old;
    opening_new = λ o e.
        let old = wf.opening_new o e in
        IsOpening-IsSame m.state t o grown (same o.address old.new) old;
  }

-- A write to one connection that keeps its bridge and its client.
pub set_at-IsSame :
    {C : Type 0} (address : ℕ) (value : BridgeConnection C) (at : ℕ → BridgeConnection C)
    → IsSame value (at address)
    → (a : ℕ) → IsSame (set_at address value at a) (at a)
set_at-IsSame address value at same a = elim (Bool-cases (eqb a address)) [
  | inl e ↦ let here : a ≡ address = (eqb_iff a address).0 e in rw (e, here) same
  | inr e ↦ rw e (record { bridge_same = refl; client_same = refl })
]

-- A write at an address that is not in use yet.
pub set_at_new :
    {C : Type 0} (next : ℕ) (value : BridgeConnection C) (at : ℕ → BridgeConnection C) (a : ℕ)
    → a < next
    → IsSame (set_at next value at a) (at a)
set_at_new next value at a h = elim (Bool-cases (eqb a next)) [
  | inl e ↦ let same : a ≡ next = (eqb_iff a next).0 e in absurd (omega arith)
  | inr e ↦ rw e (record { bridge_same = refl; client_same = refl })
]

-- ===== src/Mqtt/Steps/Invariant.antt =====
-- What holds of the table of bridges in every state that the manager and its handlers can reach.
use mqtt_sensor_exporter.Common.{
  ℕ, ◌≤◌, ◌≡◌, refl, sym, ◌∙◌, ap, String, true, false, Option, none, some, ◌==◌, if◌then◌else◌,
  Bool, [], arith,
}
use mqtt_sensor_exporter.Common.Dict.{lookup}
use mqtt_sensor_exporter.Common.Int.{ℤ}
use mqtt_sensor_exporter.Kube.{Cluster}
use mqtt_sensor_exporter.Mqtt.Types.{Paho, State}
use mqtt_sensor_exporter.Mqtt.Manager.{key, on_connect, on_connection_lost, disconnect, forget}
use mqtt_sensor_exporter.Mqtt.Manager.Laws.{lookup-disconnect_bridge}
use mqtt_sensor_exporter.Mqtt.Steps.{
  Opening, Machine, idle, Step, open_client, fail_connect, end_connect, handle_connect, handle_lost,
  disconnect_bridge, go_on, Runs, start, then_step, IsInitial,
}
use mqtt_sensor_exporter.Mqtt.Steps.Entries.{
  IsWellFormed, IsSameUpTo, IsWellFormed-IsSame, set_at-IsSame,
}
use mqtt_sensor_exporter.Mqtt.Steps.Moves.{
  open_client-IsWellFormed, end_connect-IsWellFormed, fail_connect-IsWellFormed,
}

module _ {W C : Type 0} (paho : Paho W C) (cluster : Cluster W) where
  on_connect-IsWellFormed :
      (m : Machine W C) (now : ℤ) (a : ℕ)
      → IsWellFormed m
      → IsWellFormed (record m { state = on_connect paho now a m.state })
  unfolding on_connect
  on_connect-IsWellFormed m now a wf =
      IsWellFormed-IsSame m (on_connect paho now a m.state) (omega arith)
        (λ x _. set_at-IsSame a _ m.state.at (record { bridge_same = refl; client_same = refl }) x)
        (λ k x e. e) wf

  on_connection_lost-IsWellFormed :
      (m : Machine W C) (a : ℕ)
      → IsWellFormed m
      → IsWellFormed (record m { state = on_connection_lost paho a m.state })
  unfolding on_connection_lost
  on_connection_lost-IsWellFormed m a wf =
      IsWellFormed-IsSame m (on_connection_lost paho a m.state) (omega arith)
        (λ x _. set_at-IsSame a _ m.state.at (record { bridge_same = refl; client_same = refl }) x)
        (λ k x e. e) wf

  disconnect-IsSame :
      (namespace name : String) (s : State W C)
      → (s.next ≤ (disconnect paho namespace name s).next)
        × IsSameUpTo s (disconnect paho namespace name s)
  unfolding disconnect
  disconnect-IsSame namespace name s = go (lookup (key namespace name) s.bridges)
    where
      go :
          (o : Option ℕ)
          → (s.next ≤ (forget paho (key namespace name) o s).next)
            × IsSameUpTo s (forget paho (key namespace name) o s)
      go none = (omega arith, λ a _. record { bridge_same = refl; client_same = refl })
      go (some x) = (omega arith, λ a _. record { bridge_same = refl; client_same = refl })

  disconnect-IsWellFormed :
      (s : State W C) (namespace name : String)
      → IsWellFormed (idle s)
      → IsWellFormed (idle (disconnect paho namespace name s))
  disconnect-IsWellFormed s namespace name wf =
      let (grown, same) = disconnect-IsSame namespace name s in
      IsWellFormed-IsSame (idle s) (disconnect paho namespace name s) grown same fewer wf
    where
      fewer :
          (k : String) (a : ℕ)
          → lookup k (disconnect paho namespace name s).bridges ≡ some a
          → lookup k s.bridges ≡ some a
      fewer k a e =
          kept (key namespace name == k) _
            (sym (lookup-disconnect_bridge paho namespace name k s) ∙ e)
        where
          kept : (b : Bool) (o : Option ℕ) → (if b then none else o) ≡ some a → o ≡ some a
          kept true o p = cc
          kept false o p = p

  Step-IsWellFormed : {m n : Machine W C} → Step paho cluster m n → IsWellFormed m → IsWellFormed n
  Step-IsWellFormed (open_client s bridge login w c e f) wf =
      open_client-IsWellFormed paho s bridge w c wf
  Step-IsWellFormed (fail_connect s bridge now e f) wf =
      fail_connect-IsWellFormed paho cluster s bridge now e f wf
  Step-IsWellFormed (end_connect s o now) wf = end_connect-IsWellFormed paho s o now wf
  Step-IsWellFormed (handle_connect m now a h) wf = on_connect-IsWellFormed m now a wf
  Step-IsWellFormed (handle_lost m a h) wf = on_connection_lost-IsWellFormed m a wf
  Step-IsWellFormed (disconnect_bridge s namespace name) wf =
      disconnect-IsWellFormed s namespace name wf
  Step-IsWellFormed (go_on m w) wf =
      IsWellFormed-IsSame m (record m.state { world = w }) (omega arith)
        (λ a _. record { bridge_same = refl; client_same = refl }) (λ k a e. e) wf

  IsInitial-IsWellFormed : (m : Machine W C) → IsInitial m → IsWellFormed m
  IsInitial-IsWellFormed m i = record {
    entries = λ k a e. absurd (empty_lookup k a (sym (ap (lookup k) i.no_bridges) ∙ e));
    opening_new = λ o e. absurd (none_ne o (sym i.no_call ∙ e));
  }
    where
      empty_lookup : (k : String) (a : ℕ) → lookup k [] ≡ some a → ⊥
      empty_lookup k a e = unfold lookup in none_is e
        where
          none_is : ◌≡◌ {A = Option ℕ} none (some a) → ⊥
          none_is q = cc

      none_ne : (o : Opening C) → none ≡ some o → ⊥
      none_ne o e = cc

  -- From a manager without bridges, however its calls and the handlers of its clients interleave: in
  -- every state that is reached each bridge of the table stands under the key of its own namespace
  -- and name, in a connection that has been made and has a client; and the connection of a running
  -- `Connect` has been made for that bridge.
  pub Runs-IsWellFormed : {m n : Machine W C} → IsInitial m → Runs paho cluster m n → IsWellFormed n
  Runs-IsWellFormed {m} i start = IsInitial-IsWellFormed m i
  Runs-IsWellFormed i (then_step r s) = Step-IsWellFormed s (Runs-IsWellFormed i r)

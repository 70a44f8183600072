-- ===== src/Mqtt/Steps/Interleavings.antt =====
-- `Connect` is a run of the state machine, with its handler early or late.
use mqtt_sensor_exporter.Common.{
  ◌<◌, ◌≡◌, refl, ◌∙◌, ap, String, Bool, true, false, Result, ok, err, wrapped, wrapf, arith, Error,
}
use mqtt_sensor_exporter.Common.Int.{ℤ}
use mqtt_sensor_exporter.Kube.{Cluster}
use mqtt_sensor_exporter.Mqtt.Types.{Bridge, Paho, State}
use mqtt_sensor_exporter.Mqtt.Options.{login_of, client_options}
use mqtt_sensor_exporter.Mqtt.Manager as Manager
use mqtt_sensor_exporter.Mqtt.Manager.{
  on_connect, allocate, register, finish, attach, connect, close_existing,
}
use mqtt_sensor_exporter.Mqtt.Steps.{
  Opening, idle, busy, closed_for, opened_with, Runs, start, then_step, open_client, fail_connect,
  end_connect, handle_connect,
}
use mathlib.Core.Path.{subst}

module _ {W C : Type 0} (paho : Paho W C) (cluster : Cluster W) (now : ℤ) (bridge : Bridge)
    (s : State W C) where
  -- A call that fails is one step.
  failed_run :
      (t : State W C) (e : Error)
      → connect paho cluster true now bridge s ≡ (t, err e)
      → Runs paho cluster (idle s) (idle t)
  failed_run t e h =
      subst (λ (r : State W C × Result (Unit {0})). Runs paho cluster (idle s) (idle r.0)) h
        (then_step start (fail_connect s bridge now e (ap (λ r. r.1) h)))

  next_in_use : (w : W) → s.next < (opened_with paho bridge w s).next
  unfolding allocate close_existing
  next_in_use w = omega arith

  finished_run :
      (early : Bool) (login : String × String) (w : W) (c : C)
      → login_of cluster (closed_for paho bridge s).world bridge bridge.credentials ≡ ok login
      → paho.connect_client (closed_for paho bridge s).world (client_options bridge login)
        ≡ (w, ok c)
      → Runs paho cluster
          (idle s)
          (idle (finish paho early now bridge s.next c (opened_with paho bridge w s)))
  unfolding finish
  finished_run true login w c logged made =
      let o : Opening C = record { bridge = bridge; address = s.next; client = c } in
      then_step
        (then_step (then_step start (open_client s bridge login w c logged made))
          (handle_connect (busy o (opened_with paho bridge w s)) now s.next (next_in_use w)))
        (end_connect (on_connect paho now s.next (opened_with paho bridge w s)) o now)
  finished_run false login w c logged made =
      let o : Opening C = record { bridge = bridge; address = s.next; client = c } in
      then_step
        (then_step (then_step start (open_client s bridge login w c logged made))
          (end_connect (opened_with paho bridge w s) o now))
        (handle_connect (idle (register paho now bridge s.next c (opened_with paho bridge w s))) now
          s.next (unfold register in next_in_use w))

  no_login :
      (x : Error)
      → login_of cluster (closed_for paho bridge s).world bridge bridge.credentials ≡ err x
      → connect paho cluster true now bridge s ≡ (closed_for paho bridge s, err x)
  unfolding connect Manager.open_client
  no_login x e = ap (λ r. Manager.open_client paho true now bridge r (closed_for paho bridge s)) e

  refused :
      (login : String × String) (w : W) (x : Error)
      → login_of cluster (closed_for paho bridge s).world bridge bridge.credentials ≡ ok login
      → paho.connect_client (closed_for paho bridge s).world (client_options bridge login)
        ≡ (w, err x)
      → connect paho cluster true now bridge s
        ≡ (opened_with paho bridge w s, err (wrapf "failed to connect to MQTT broker" x))
  unfolding connect Manager.open_client attach close_existing
  refused login w x e f =
      ap (λ r. Manager.open_client paho true now bridge r (closed_for paho bridge s)) e
      ∙ ap
          (λ (step : W × Result C).
            attach paho true now bridge s.next (opened_with paho bridge step.0 s)
              (wrapped "failed to connect to MQTT broker" step.1))
          f

  -- Every call of `Connect`, whether it fails or not and whether its handler runs before or after
  -- the client is put into the connection, is a run of the state machine.
  pub connect-Runs :
      (early : Bool) → Runs paho cluster (idle s) (idle (connect paho cluster early now bridge s).0)
  unfolding connect close_existing
  connect-Runs early =
      logged_in (login_of cluster (closed_for paho bridge s).world bridge bridge.credentials) refl
    where
      made :
          (login : String × String) (w : W) (r : Result C)
          → login_of cluster (closed_for paho bridge s).world bridge bridge.credentials ≡ ok login
          → paho.connect_client (closed_for paho bridge s).world (client_options bridge login)
            ≡ (w, r)
          → Runs paho cluster (idle s) (
              idle
                (attach paho early now bridge s.next
                  (opened_with paho bridge w s)
                  (wrapped "failed to connect to MQTT broker" r)).0)
      made login w (ok c) e f = unfold attach in finished_run early login w c e f
      made login w (err x) e f =
          unfold attach in failed_run (opened_with paho bridge w s) _ (refused login w x e f)

      logged_in :
          (r : Result (String × String))
          → login_of cluster (closed_for paho bridge s).world bridge bridge.credentials ≡ r
          → Runs paho cluster
              (idle s)
              (idle (Manager.open_client paho early now bridge r (closed_for paho bridge s)).0)
      logged_in (err x) e =
          unfold Manager.open_client in failed_run (closed_for paho bridge s) x (no_login x e)
      logged_in (ok login) e = unfold Manager.open_client in made login _ _ e refl

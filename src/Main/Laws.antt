-- ===== src/Main/Laws.antt =====
-- What the flags and the setup guarantee.
use mathlib.Core.List.{append-nil, append_assoc}
use mqtt_sensor_exporter.Common.{
  ◌≡◌, refl, sym, ap, ◌∙◌, String, Bool, true, false, not, List, [], ◌∷◌, ◌++◌, Result, ok, err,
  Bool-cases, inl, inr, if◌then◌else◌,
}
use mqtt_sensor_exporter.Kube.{Database}
use mqtt_sensor_exporter.Api.Server.Life.{Server, new_server}
use mqtt_sensor_exporter.Mqtt.Types.{Bridge}
use mqtt_sensor_exporter.Watcher.{Event, triggers_database, triggers_bridge}
use mqtt_sensor_exporter.Main.{
  Flags, ServerTls, disable_http2, tls_opts_of, webhook_options, metrics_options, WebhookOptions,
  MetricsOptions, ManagerOptions, manager_options, namespace_of, serves_api, Setup, Exit, failure,
  finished, or_exit, run_manager, launch, run_watchers, main,
}

-- The options of a server, in order.
abbrev pub apply_all : List (ServerTls → ServerTls) → ServerTls → ServerTls
apply_all [] c = c
apply_all (f ∷ fs) c = apply_all fs (f c)

-- Both servers speak HTTP/1.1 alone, whatever their configuration was, unless the flag enables
-- HTTP/2, which leaves their configurations as they were.
pub tls_opts-enable_http2 :
    (f : Flags) (c : ServerTls)
    → (apply_all (WebhookOptions.tls_opts (webhook_options f)) c
        ≡ (if f.enable_http2 then c else record c { next_protos = "http/1.1" ∷ [] }))
      × (apply_all (MetricsOptions.tls_opts (metrics_options f)) c
          ≡ (if f.enable_http2 then c else record c { next_protos = "http/1.1" ∷ [] }))
unfolding webhook_options metrics_options tls_opts_of disable_http2
tls_opts-enable_http2 f c = (go f.enable_http2, go f.enable_http2)
  where
    go :
        (b : Bool)
        → apply_all (if not b then disable_http2 ∷ [] else []) c
          ≡ (if b then c else record c { next_protos = "http/1.1" ∷ [] })
    go true = refl
    go false = refl

-- The stages of the setup.
pub data Stage : Type 0 where
  manager : Stage
  logger : Stage
  database_watcher : Stage
  bridge_watcher : Stage
  api_server : Stage
  health_check : Stage
  ready_check : Stage
  run : Stage

abbrev pub plan : Bool → List Stage
plan serves =
    manager
    ∷ logger
    ∷ database_watcher
    ∷ bridge_watcher
    ∷ (if serves
        then api_server ∷ health_check ∷ ready_check ∷ run ∷ []
        else health_check ∷ ready_check ∷ run ∷ [])

-- The message of a stage that fails; starting the API's goroutine cannot fail.
abbrev pub message_of : Stage → String
message_of manager = "Failed to start manager"
message_of logger = "Failed to create zap logger"
message_of database_watcher = "Failed to create Database watcher"
message_of bridge_watcher = "Failed to create MQTTBridge watcher"
message_of api_server = ""
message_of health_check = "Failed to set up health check"
message_of ready_check = "Failed to set up ready check"
message_of run = "Failed to run manager"

-- The world keeps a log of the stages that were begun.
pub record IsLogged {W M : Type 0} (setup : Setup W M) (log : W → List Stage) : Type 0 where
  pub logs_manager :
      (o : ManagerOptions) (w : W) → log (setup.new_manager o w).0 ≡ log w ++ manager ∷ []
  pub logs_logger : (w : W) → log (setup.new_logger w).0 ≡ log w ++ logger ∷ []
  pub logs_databases :
      (m : M) (ns : String) (trigger : Event Database → Bool) (w : W)
      → log (setup.watch_databases m ns trigger w).0 ≡ log w ++ database_watcher ∷ []
  pub logs_bridges :
      (m : M) (ns : String) (trigger : Event Bridge → Bool) (w : W)
      → log (setup.watch_bridges m ns trigger w).0 ≡ log w ++ bridge_watcher ∷ []
  pub logs_api :
      (m : M) (server : Server) (w : W)
      → log (setup.launch_api m server w) ≡ log w ++ api_server ∷ []
  pub logs_health : (m : M) (w : W) → log (setup.add_healthz m w).0 ≡ log w ++ health_check ∷ []
  pub logs_ready : (m : M) (w : W) → log (setup.add_readyz m w).0 ≡ log w ++ ready_check ∷ []
  pub logs_run : (m : M) (w : W) → log (setup.start m w).0 ≡ log w ++ run ∷ []

-- The stages of a run that failed: those of the plan up to the one that failed.
pub record Failed (stages : List Stage) (message : String) (before after : List Stage)
    : Type 0 where
  pub earlier : List Stage
  pub last : Stage
  pub later : List Stage
  pub planned : earlier ++ last ∷ later ≡ stages
  pub begun : after ≡ before ++ (earlier ++ last ∷ [])
  pub told : message ≡ message_of last

abbrev pub MainOutcome : List Stage → List Stage → List Stage → Exit → Type 0
MainOutcome stages before after finished = after ≡ before ++ stages
MainOutcome stages before after (failure message e) = Failed stages message before after

module _ {W M : Type 0} (setup : Setup W M) (log : W → List Stage)
    (logged : IsLogged setup log) where
  -- One stage, when those before it are done.
  stage_outcome :
      {A : Type 0} (before stages earlier later : List Stage) (stage : Stage) (w : W)
      (step : W × Result A) (rest : A → W → W × Exit)
      → earlier ++ stage ∷ later ≡ stages
      → log w ≡ before ++ earlier
      → log step.0 ≡ log w ++ stage ∷ []
      → ((a : A) (w₁ : W)
          → log w₁ ≡ before ++ (earlier ++ stage ∷ [])
          → MainOutcome stages before (log (rest a w₁).0) (rest a w₁).1)
      → MainOutcome stages before
          (log (or_exit (message_of stage) step rest).0)
          (or_exit (message_of stage) step rest).1
  stage_outcome before stages earlier later stage w (w₁, ok a) rest split here new next =
      next a w₁ (new ∙ ap (λ t. t ++ stage ∷ []) here ∙ append_assoc before earlier (stage ∷ []))
  stage_outcome before stages earlier later stage w (w₁, err e) rest split here new next = record {
    earlier = earlier;
    last = stage;
    later = later;
    planned = split;
    begun = new ∙ ap (λ t. t ++ stage ∷ []) here ∙ append_assoc before earlier (stage ∷ []);
    told = refl;
  }

  abbrev first_four : List Stage
  first_four = manager ∷ logger ∷ database_watcher ∷ bridge_watcher ∷ []

  module _ (flags : Flags) (pod_namespace : String) (before : List Stage) where
    -- What comes after the stages `earlier`, with or without the API.
    run_manager_outcome :
        (stages earlier : List Stage) (m : M) (w : W)
        → earlier ++ health_check ∷ ready_check ∷ run ∷ [] ≡ stages
        → log w ≡ before ++ earlier
        → MainOutcome stages before
            (log (run_manager setup flags pod_namespace m w).0)
            (run_manager setup flags pod_namespace m w).1
    unfolding run_manager
    run_manager_outcome stages earlier m w split here =
        stage_outcome before stages earlier (ready_check ∷ run ∷ []) health_check w
          (setup.add_healthz m w) _ split here (logged.logs_health m w)
          λ _ w₁ h₁.
            stage_outcome before stages (earlier ++ health_check ∷ []) (run ∷ []) ready_check w₁
              (setup.add_readyz m w₁) _
              (append_assoc earlier (health_check ∷ []) (ready_check ∷ run ∷ []) ∙ split) h₁
              (logged.logs_ready m w₁)
              λ _ w₂ h₂.
                stage_outcome before stages ((earlier ++ health_check ∷ []) ++ ready_check ∷ []) []
                  run w₂ (setup.start m w₂) _
                  (append_assoc (earlier ++ health_check ∷ []) (ready_check ∷ []) (run ∷ [])
                    ∙ append_assoc earlier (health_check ∷ []) (ready_check ∷ run ∷ [])
                    ∙ split)
                  h₂ (logged.logs_run m w₂)
                  λ _ w₃ h₃.
                    h₃
                    ∙ ap (λ t. before ++ t)
                        (append_assoc (earlier ++ health_check ∷ []) (ready_check ∷ []) (run ∷ [])
                          ∙ append_assoc earlier (health_check ∷ []) (ready_check ∷ run ∷ [])
                          ∙ split)

    launched_outcome :
        (m : M) (w : W)
        → log w ≡ before ++ first_four
        → MainOutcome
            (plan (serves_api flags))
            before
            (log (run_manager setup flags pod_namespace m (launch setup flags pod_namespace m w)).0)
            (run_manager setup flags pod_namespace m (launch setup flags pod_namespace m w)).1
    unfolding launch
    launched_outcome m w here = elim (Bool-cases (serves_api flags)) [
      | inl e ↦ rw e (
          run_manager_outcome (plan true) (first_four ++ api_server ∷ []) m _ refl (
            logged.logs_api m (new_server flags.api_bind_address) w
            ∙ ap (λ t. t ++ api_server ∷ []) here
            ∙ append_assoc before first_four (api_server ∷ [])))
      | inr e ↦ rw e (run_manager_outcome (plan false) first_four m w refl here)
    ]

  -- In a world that keeps a log of the calls of the setup: `main` begins the stages in this order,
  -- the manager, the logger, the database watcher, the bridge watcher, the API if its address is
  -- neither empty nor "0", the two checks, and the manager's run. If it finishes it has begun them
  -- all; if it exits with a failure, the message is that of the last stage that it has begun, and no
  -- later stage is begun.
  pub main_outcome :
      (flags : Flags) (pod_namespace : String) (w : W)
      → MainOutcome
          (plan (serves_api flags))
          (log w)
          (log (main setup flags pod_namespace w).0)
          (main setup flags pod_namespace w).1
  unfolding main run_watchers
  main_outcome flags pod_namespace w =
      let stages = plan (serves_api flags) in
      let before = log w in
      let tail : List Stage =
        if serves_api flags
        then api_server ∷ health_check ∷ ready_check ∷ run ∷ []
        else health_check ∷ ready_check ∷ run ∷ [] in
      stage_outcome before stages [] (logger ∷ database_watcher ∷ bridge_watcher ∷ tail) manager w
        (setup.new_manager (manager_options flags) w) _ refl (sym (append-nil before))
        (logged.logs_manager (manager_options flags) w)
        λ m w₁ h₁.
          stage_outcome before stages (manager ∷ []) (database_watcher ∷ bridge_watcher ∷ tail)
            logger w₁ (setup.new_logger w₁) _ refl h₁ (logged.logs_logger w₁)
            λ _ w₂ h₂.
              stage_outcome before stages (manager ∷ logger ∷ []) (bridge_watcher ∷ tail)
                database_watcher w₂
                (setup.watch_databases m (namespace_of pod_namespace) triggers_database w₂) _ refl
                h₂ (logged.logs_databases m (namespace_of pod_namespace) triggers_database w₂)
                λ _ w₃ h₃.
                  stage_outcome before stages (manager ∷ logger ∷ database_watcher ∷ []) tail
                    bridge_watcher w₃
                    (setup.watch_bridges m (namespace_of pod_namespace) triggers_bridge w₃) _ refl
                    h₃ (logged.logs_bridges m (namespace_of pod_namespace) triggers_bridge w₃)
                    λ _ w₄ h₄. launched_outcome flags pod_namespace before m w₄ h₄

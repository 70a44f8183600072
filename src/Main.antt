-- ===== src/Main.antt =====
-- cmd/main.go: the options that the flags give, and the order of the setup. The flags are parsed
-- already; the calls of controller-runtime, each of which may fail, are the fields of a record.
pub mod Laws
use mqtt_sensor_exporter.Common.{
  String, ◌==◌, Bool, true, false, not, ◌&&◌, Option, none, some, List, [], ◌∷◌, Error, Result, ok,
  err, Action, if◌then◌else◌,
}
use mqtt_sensor_exporter.Kube.{Database}
use mqtt_sensor_exporter.Api.Server.Life.{Server, new_server}
use mqtt_sensor_exporter.Mqtt.Types.{Bridge}
use mqtt_sensor_exporter.Watcher.{Event, triggers_database, triggers_bridge}

-- The flags that are read.
pub record Flags : Type 0 where
  pub metrics_addr : String
  pub metrics_cert_path : String
  pub metrics_cert_name : String
  pub metrics_cert_key : String
  pub webhook_cert_path : String
  pub webhook_cert_name : String
  pub webhook_cert_key : String
  pub api_bind_address : String
  pub enable_leader_election : Bool
  pub probe_addr : String
  pub secure_metrics : Bool
  pub enable_http2 : Bool

-- With no flag on the command line.
abbrev pub default_flags : Flags
default_flags = record {
  metrics_addr = "0";
  metrics_cert_path = "";
  metrics_cert_name = "tls.crt";
  metrics_cert_key = "tls.key";
  webhook_cert_path = "";
  webhook_cert_name = "tls.crt";
  webhook_cert_key = "tls.key";
  api_bind_address = ":8111";
  enable_leader_election = false;
  probe_addr = ":8081";
  secure_metrics = true;
  enable_http2 = false;
}

-- The one field of a server's `tls.Config` that the options set; nil is the empty list.
pub record ServerTls : Type 0 where
  pub next_protos : List String

pub record CertFiles : Type 0 where
  pub cert_dir : String
  pub cert_name : String
  pub key_name : String

-- `webhook.Options` and `metricsserver.Options`; `certs` is `none` where the three fields are unset.
pub record WebhookOptions : Type 0 where
  pub tls_opts : List (ServerTls → ServerTls)
  pub certs : Option CertFiles

pub record MetricsOptions : Type 0 where
  pub bind_address : String
  pub secure_serving : Bool
  pub tls_opts : List (ServerTls → ServerTls)
  pub authenticated : Bool
  pub certs : Option CertFiles

-- `ctrl.Options`
pub record ManagerOptions : Type 0 where
  pub metrics : MetricsOptions
  pub webhook : WebhookOptions
  pub health_probe_bind_address : String
  pub leader_election : Bool
  pub leader_election_id : String

unfoldable pub disable_http2 : ServerTls → ServerTls
disable_http2 c = record c { next_protos = "http/1.1" ∷ [] }

unfoldable pub tls_opts_of : Flags → List (ServerTls → ServerTls)
tls_opts_of f = if not f.enable_http2 then disable_http2 ∷ [] else []

abbrev certs_of : String → String → String → Option CertFiles
certs_of path name key =
    if not (path == "")
    then some (record { cert_dir = path; cert_name = name; key_name = key })
    else none

unfoldable pub webhook_options : Flags → WebhookOptions
webhook_options f = record {
  tls_opts = tls_opts_of f;
  certs = certs_of f.webhook_cert_path f.webhook_cert_name f.webhook_cert_key;
}

unfoldable pub metrics_options : Flags → MetricsOptions
metrics_options f = record {
  bind_address = f.metrics_addr;
  secure_serving = f.secure_metrics;
  tls_opts = tls_opts_of f;
  authenticated = f.secure_metrics;
  certs = certs_of f.metrics_cert_path f.metrics_cert_name f.metrics_cert_key;
}

unfoldable pub manager_options : Flags → ManagerOptions
manager_options f = record {
  metrics = metrics_options f;
  webhook = webhook_options f;
  health_probe_bind_address = f.probe_addr;
  leader_election = f.enable_leader_election;
  leader_election_id = "5cf71cc2.hauke.cloud";
}

unfoldable pub namespace_of : String → String
namespace_of pod_namespace = if pod_namespace == "" then "default" else pod_namespace

unfoldable pub serves_api : Flags → Bool
serves_api f = not (f.api_bind_address == "") && not (f.api_bind_address == "0")

-- The calls of the setup, over a world `W` and managers `M` of controller-runtime. `watch_databases`
-- and `watch_bridges` build the two controllers, for the namespace and with the predicate of the
-- watcher; `launch_api` starts the goroutine that calls `Start` of the API server.
pub record Setup (W M : Type 0) : Type 0 where
  pub new_manager : ManagerOptions → Action W M
  pub new_logger : Action W (Unit {0})
  pub watch_databases : M → String → (Event Database → Bool) → Action W (Unit {0})
  pub watch_bridges : M → String → (Event Bridge → Bool) → Action W (Unit {0})
  pub launch_api : M → Server → W → W
  pub add_healthz : M → Action W (Unit {0})
  pub add_readyz : M → Action W (Unit {0})
  pub start : M → Action W (Unit {0})

-- `os.Exit(1)` after the message that is logged, or the end of `main`.
pub data Exit : Type 0 where
  failure : String → Error → Exit
  finished : Exit

-- `if err := …; err != nil { setupLog.Error(err, message); os.Exit(1) }`, and the code after it.
abbrev pub or_exit : {W A : Type 0} → String → W × Result A → (A → W → W × Exit) → W × Exit
or_exit message (w, ok a) rest = rest a w
or_exit message (w, err e) rest = (w, failure message e)

module _ {W M : Type 0} (setup : Setup W M) (flags : Flags) (pod_namespace : String) where
  unfoldable pub run_manager : M → W → W × Exit
  run_manager m w = or_exit "Failed to set up health check" (setup.add_healthz m w) (λ _ w₁.
      or_exit "Failed to set up ready check" (setup.add_readyz m w₁)
        (λ _ w₂. or_exit "Failed to run manager" (setup.start m w₂) (λ _ w₃. (w₃, finished))))

  -- The goroutine is started before the checks are added.
  unfoldable pub launch : M → W → W
  launch m w =
      if serves_api flags then setup.launch_api m (new_server flags.api_bind_address) w else w

  unfoldable pub run_watchers : M → W → W × Exit
  run_watchers m w =
      or_exit "Failed to create Database watcher"
        (setup.watch_databases m (namespace_of pod_namespace) triggers_database w)
        (λ _ w₁.
          or_exit "Failed to create MQTTBridge watcher"
            (setup.watch_bridges m (namespace_of pod_namespace) triggers_bridge w₁)
            (λ _ w₂. run_manager m (launch m w₂)))

  unfoldable pub main : W → W × Exit
  main w = or_exit "Failed to start manager" (setup.new_manager (manager_options flags) w) (λ m w₁.
      or_exit "Failed to create zap logger" (setup.new_logger w₁) (λ _ w₂. run_watchers m w₂))

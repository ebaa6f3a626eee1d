-- ===== src/Tests/Deployments.antt =====
-- container/deploy.go with one old container and a CLI that starts new ones.
use dewy.Common.{
  Bool, ℕ, ◌+◌, ◌≡◌, refl, ◌≢◌, true, false, some, List, [], ◌∷◌, Text, codes, text_eq, text_eq_iff,
  pos,
}
use mathlib.Core.Option.{some-injective}
use dewy.Container.Deploy.Defs.{
  Result, ok, err, finish_deploy, deploy_replicas, replica_count, add_replica, start_and_check,
  after_start, collect_ports, get, check_health, finish_replica, add_backends, put, PortMapping,
  History, RollingDeployOptions, Environment, State, noop_backend_updater, deploy, localhost,
}
use dewy.Container.Ports.{
  resolve_port_mappings, AreResolvedAs, resolve_port_mappings-AreResolvedAs, needs_auto_detect,
  resolve_with, resolve_mapping,
}
use dewy.Container.Deploy.Untouched.{SparedOnError, deploy-SparedOnError}
use dewy.Container.Deploy.Rollback.{TakenBack, deploy-TakenBack}
use dewy.Proxy.{Proxies}
use dewy.Proxy.Backends.{holds}
use dewy.Proxy.Updater.{proxy_backend_updater, holds-Counts}
use dewy.Container.Deploy.Counts.{IsComplete, deploy-IsComplete}

abbrev old : Text
old = codes "old"

abbrev environment : Environment
environment = record {
  find_containers = λ h. some (old ∷ []);
  start = λ h i ports. some (codes "new");
  mapped_port = λ h id p. some (32768 + p);
  healthy = λ h id. false;
  iterate = λ h m. m;
}

abbrev options : RollingDeployOptions
options = record {
  replicas = pos 2;
  port_mappings = (record { proxy_port = 80; container_port = 8080 }) ∷ [];
  health_check = true;
}

abbrev start_state : State (Unit {0})
start_state = record { history = []; backends = tt }

new-not_old : (h : History) (i : ℕ) (ports : List ℕ) → environment.start h i ports ≢ some old
unfolding text_eq
new-not_old h i ports e =
    let same : false ≡ true =
      (text_eq_iff (codes "new") old).1 (some-injective (codes "new") old e) in
    cc

deploy-SparedOnError_example :
    SparedOnError environment noop_backend_updater options old new-not_old
      (deploy environment noop_backend_updater options start_state)
deploy-SparedOnError_example =
    deploy-SparedOnError environment noop_backend_updater options old new-not_old start_state tt

abbrev healthy_environment : Environment
healthy_environment = record environment { healthy = λ h id. true }

abbrev is_report : {A : Type 0} → Result A × State (Unit {0}) → Bool
is_report (ok r, s) = true
is_report (err e, s) = false

succeeds : is_report (deploy healthy_environment noop_backend_updater options start_state) ≡ true
unfolding deploy finish_deploy deploy_replicas replica_count add_replica start_and_check after_start
    collect_ports get check_health finish_replica add_backends put
succeeds = refl

deploy-IsComplete_example :
    IsComplete healthy_environment noop_backend_updater options
      (old ∷ [])
      (deploy healthy_environment noop_backend_updater options start_state)
deploy-IsComplete_example =
    deploy-IsComplete healthy_environment noop_backend_updater options start_state (old ∷ []) refl

abbrev mappings : List PortMapping
mappings =
    (record { proxy_port = 80; container_port = 0 })
    ∷ (record { proxy_port = 443; container_port = 8443 })
    ∷ []

abbrev resolved : List PortMapping
resolved =
    (record { proxy_port = 80; container_port = 8080 })
    ∷ (record { proxy_port = 443; container_port = 8443 })
    ∷ []

mappings-resolved : resolve_port_mappings (some (8080 ∷ [])) mappings ≡ some resolved
unfolding resolve_port_mappings needs_auto_detect resolve_with resolve_mapping
mappings-resolved = refl

resolve_port_mappings-AreResolvedAs_example : AreResolvedAs (some (8080 ∷ [])) mappings resolved
resolve_port_mappings-AreResolvedAs_example =
    resolve_port_mappings-AreResolvedAs (some (8080 ∷ [])) mappings resolved mappings-resolved

abbrev proxies : Proxies
proxies =
    (
      80,
      record {
        backends = (record { host = codes "localhost"; port = 32001 }) ∷ [];
        proxy_port = 80;
        backend_index = 0;
      },
    )
    ∷ []

abbrev proxied_state : State Proxies
proxied_state = record { history = []; backends = proxies }

deploy-TakenBack_example :
    TakenBack environment proxy_backend_updater options 80 32001
      (holds localhost 32001 80)
      (holds-Counts 80 32001)
      (λ h m. refl)
      (holds localhost 32001 80 proxies)
      (deploy environment proxy_backend_updater options proxied_state)
deploy-TakenBack_example =
    deploy-TakenBack environment proxy_backend_updater options 80 32001 (holds localhost 32001 80)
      (holds-Counts 80 32001) (λ h m. refl) proxied_state

-- ===== src/Tests/Containers.antt =====
-- One tick of the container command with a new image.
use dewy.Common.{ℕ, ◌+◌, refl, true, false, none, some, [], ◌∷◌, codes, negsuc}
use dewy.Lifecycle.Outside.{container, Config, CurrentResponse, found, Cache, Outside}
use dewy.Lifecycle.Containers.{ContainerConfig, Runtimes, Daemon, run_container}
use dewy.Lifecycle.Outcome.{Outcome}
use dewy.Lifecycle.Containers.Kept.{IsFailed}
use dewy.Lifecycle.Containers.Ends.{Ends, run_container-Ends}
use dewy.Container.Deploy.Defs.{Environment}

abbrev no_cache : Cache ℕ
no_cache = record {
  read = λ key c. (none, c);
  list = λ c. some [];
  write = λ key value c. (c, true);
}

abbrev image : CurrentResponse
image = record {
  id = codes "sha256:7";
  tag = codes "v1.2.3";
  artifact_url = codes "img://ghcr.io/linyows/app:v1.2.3";
  slot = [];
}

abbrev surroundings : Outside
surroundings = record {
  current = λ t. found image;
  can_make_artifact = λ t url. true;
  artifact_writes = λ t url. ([], true);
  release_dir = λ t. [];
  can_make_release = λ t. true;
  can_extract = λ t key. true;
  can_make_link = λ t. true;
  can_rename_link = λ t. true;
  can_start = λ t. true;
  can_signal = λ t. true;
  can_run_hook = λ t. true;
}

abbrev cli_of_image : Environment
cli_of_image = record {
  find_containers = λ h. some (codes "old" ∷ []);
  start = λ h i ports. some (codes "new");
  mapped_port = λ h id p. some (32768 + p);
  healthy = λ h id. true;
  iterate = λ h m. m;
}

abbrev runtimes : Runtimes
runtimes = record {
  can_make_runtime = λ t. true;
  running_with_image = λ h ref name. some [];
  can_pull = λ t url. true;
  exposed_ports = λ h ref. some (8080 ∷ []);
  environment = λ ref name tag. cli_of_image;
}

abbrev container_config : Config
container_config = record {
  command = container;
  slot = [];
  before_deploy_hook = codes "true";
  after_deploy_hook = [];
  has_ports = true;
  disable_report = false;
  telemetry_on = true;
}

abbrev settings : ContainerConfig
settings = record {
  name = [];
  registry = codes "img://ghcr.io/linyows/app";
  replicas = negsuc 0;
  port_mappings = (record { proxy_port = 80; container_port = 0 }) ∷ [];
  health_path = codes "/health";
}

abbrev idle : Daemon ℕ
idle = record {
  dewy = record {
    cache = 0;
    is_server_running = false;
    c_ver = codes "v1.2.2";
    artifact = none;
    current = none;
    trace = [];
  };
  cli = record {
    history = [];
    backends =
        (
          80,
          record {
            proxy_port = 80;
            backends = (record { host = codes "localhost"; port = 32001 }) ∷ [];
            backend_index = 0;
          },
        )
        ∷ [];
  };
  has_runtime = false;
}

run_container-Ends_example :
    Outcome
      (Ends no_cache surroundings container_config runtimes settings idle)
      (IsFailed 80 32001 idle)
      (run_container no_cache surroundings container_config runtimes settings idle)
run_container-Ends_example =
    run_container-Ends no_cache surroundings container_config runtimes settings 80 32001
      (λ ref name tag h m. refl) idle

-- ===== src/Container/Deploy/Defs.antt =====
-- `Deploy`, `startAndCheck` and `rollback` of container/deploy.go. The commands that they give to the
-- container CLI are recorded, and the CLI's answers may depend on all that was asked before.
use dewy.Common.{
  ℕ, zero, suc, ◌+◌, Bool, true, false, Option, none, some, List, [], ◌∷◌, ◌++◌, ◌==◌,
  if◌then◌else◌, any_of, Text, codes, ℤ, pos, negsuc,
}

pub record PortMapping : Type 0 where
  pub proxy_port : ℕ
  pub container_port : ℕ

pub record RollingDeployOptions : Type 0 where
  pub replicas : ℤ
  pub port_mappings : List PortMapping
  -- Whether `HealthCheck` is set.
  pub health_check : Bool

-- A Go map from proxy ports to host ports.
abbrev pub PortMap : Type 0
PortMap = List (ℕ × ℕ)

pub record DeployResult : Type 0 where
  pub container_id : Text
  pub mapped_ports : PortMap
  pub replica_index : ℕ

pub record DeployReport : Type 0 where
  pub results : List DeployResult
  pub removed_count : ℕ

-- A command of the container CLI; `run` with the container's ID, if it was started.
pub data Command : Type 0 where
  ps : Command
  run : ℕ → List ℕ → Option Text → Command
  port : Text → ℕ → Command
  check : Text → Command
  stop : Text → Command
  rm : Text → Command

abbrev pub History : Type 0
History = List Command

-- What the CLI, the health check of the options and Go's order of iteration over a map answer after
-- a history; `none` and `false` are errors.
pub record Environment : Type 0 where
  pub find_containers : History → Option (List Text)
  pub start : History → ℕ → List ℕ → Option Text
  pub mapped_port : History → Text → ℕ → Option ℕ
  pub healthy : History → Text → Bool
  pub iterate : History → PortMap → PortMap

-- `BackendUpdater`; the Boolean is whether there is no error.
pub record BackendUpdater (U : Type 0) : Type 0 where
  pub add_backend : Text → ℕ → ℕ → U → U × Bool
  pub remove_backend : Text → ℕ → ℕ → U → U × Bool

pub data DeployError : Type 0 where
  find_failed start_failed port_failed unhealthy add_failed : DeployError

pub data Result (A : Type 0) : Type 0 where
  ok : A → Result A
  err : DeployError → Result A

unfoldable pub get : ℕ → PortMap → Option ℕ
get k [] = none
get k ((j, v) ∷ m) = if j == k then some v else get k m

unfoldable pub put : ℕ → ℕ → PortMap → PortMap
put k v [] = (k, v) ∷ []
put k v ((j, w) ∷ m) = if j == k then (k, v) ∷ m else (j, w) ∷ put k v m

abbrev pub localhost : Text
localhost = codes "localhost"

-- The container ports that are published, each once.
unfoldable pub unique_ports : List PortMapping → List ℕ → List ℕ
unique_ports [] seen = []
unique_ports (m ∷ ms) seen =
    if any_of (λ p. p == m.container_port) seen
    then unique_ports ms seen
    else m.container_port ∷ unique_ports ms (m.container_port ∷ seen)

pub record State (U : Type 0) : Type 0 where
  pub history : History
  pub backends : U

module _ {U : Type 0} (env : Environment) (updater : BackendUpdater U)
    (opts : RollingDeployOptions) where
  unfoldable pub record_command : Command → State U → State U
  record_command c s = record s { history = s.history ++ c ∷ [] }

  -- The loop over the port mappings; `none` where `GetMappedPort` has an error.
  unfoldable pub collect_ports :
      Text → List PortMapping → PortMap → PortMap → State U → Option PortMap × State U
  collect_ports id [] container_port_to_mapped mapped_ports s = (some mapped_ports, s)
  collect_ports id (m ∷ ms) container_port_to_mapped mapped_ports s =
      elim (get m.container_port container_port_to_mapped) [
        | some mapped_port ↦
            collect_ports id ms container_port_to_mapped (put m.proxy_port mapped_port mapped_ports)
              s
        | none ↦ elim (env.mapped_port s.history id m.container_port) [
          | none ↦ (none, record_command (port id m.container_port) s)
          | some mapped_port ↦
              collect_ports id ms (put m.container_port mapped_port container_port_to_mapped)
                (put m.proxy_port mapped_port mapped_ports)
                (record_command (port id m.container_port) s)
        ]
      ]

  -- The health check of a container that is started.
  unfoldable pub check_health : Text → PortMap → ℕ → State U → Result DeployResult × State U
  check_health id mapped_ports i s =
      let result : DeployResult = record {
        container_id = id;
        mapped_ports = mapped_ports;
        replica_index = i;
      } in
      if opts.health_check
      then if env.healthy s.history id then (ok result, record_command (check id) s) else (
        err unhealthy,
        record_command (rm id) (record_command (stop id) (record_command (check id) s)),
      )
      else (ok result, s)

  -- `startAndCheck` once the container is started.
  unfoldable pub after_start : Text → ℕ → Option PortMap × State U → Result DeployResult × State U
  after_start id i (none, s) = (err port_failed, record_command (rm id) s)
  after_start id i (some mapped_ports, s) = check_health id mapped_ports i s

  unfoldable pub start_and_check : ℕ → State U → Result DeployResult × State U
  start_and_check i s =
      let ports = unique_ports opts.port_mappings [] in
      elim (env.start s.history i ports) [
        | none ↦ (err start_failed, record_command (run i ports none) s)
        | some id ↦
            after_start id i
              (collect_ports id opts.port_mappings [] [] (record_command (run i ports (some id)) s))
      ]

  -- The loop over the port map of a new replica, up to the first error.
  unfoldable pub add_backends : PortMap → State U → Bool × State U
  add_backends [] s = (true, s)
  add_backends ((proxy_port, mapped_port) ∷ rest) s =
      let (u, added) = updater.add_backend localhost mapped_port proxy_port s.backends in
      elim added [
        | true ↦ add_backends rest (record s { backends = u })
        | false ↦ (false, record s { backends = u })
      ]

  -- The same loop of `rollback`, which goes on after an error.
  unfoldable pub remove_backends : PortMap → State U → State U
  remove_backends [] s = s
  remove_backends ((proxy_port, mapped_port) ∷ rest) s = remove_backends rest (record s {
    backends = (updater.remove_backend localhost mapped_port proxy_port s.backends).0;
  })

  unfoldable pub rollback_backends : List DeployResult → State U → State U
  rollback_backends [] s = s
  rollback_backends (r ∷ results) s =
      rollback_backends results (remove_backends (env.iterate s.history r.mapped_ports) s)

  unfoldable pub rollback_containers : List DeployResult → State U → State U
  rollback_containers [] s = s
  rollback_containers (r ∷ results) s =
      rollback_containers results
        (record_command (rm r.container_id) (record_command (stop r.container_id) s))

  unfoldable pub rollback : List DeployResult → State U → State U
  rollback results s = rollback_containers results (rollback_backends results s)

  -- A new replica behind the proxy, or the rollback.
  unfoldable pub finish_replica :
      List DeployResult → Bool × State U → Result (List DeployResult) × State U
  finish_replica results (true, s) = (ok results, s)
  finish_replica results (false, s) = (err add_failed, rollback results s)

  unfoldable pub add_replica :
      List DeployResult → Result DeployResult × State U → Result (List DeployResult) × State U
  add_replica results (err e, s) = (err e, rollback results s)
  add_replica results (ok r, s) =
      finish_replica (results ++ r ∷ []) (add_backends (env.iterate s.history r.mapped_ports) s)

  -- The loop over the replicas: how many are left, the next index, and the results so far.
  unfoldable pub deploy_replicas :
      ℕ → ℕ → Result (List DeployResult) × State U → Result (List DeployResult) × State U
  deploy_replicas n i (err e, s) = (err e, s)
  deploy_replicas zero i (ok results, s) = (ok results, s)
  deploy_replicas (suc n) i (ok results, s) =
      deploy_replicas n (i + 1) (add_replica results (start_and_check i s))

  -- The backends of an old container leave the proxy; errors are passed over.
  unfoldable pub remove_old_backends : Text → List PortMapping → State U → State U
  remove_old_backends id [] s = s
  remove_old_backends id (m ∷ ms) s =
      let asked = record_command (port id m.container_port) s in
      remove_old_backends id ms (elim (env.mapped_port s.history id m.container_port) [
        | none ↦ asked
        | some old_port ↦ record asked {
          backends = (updater.remove_backend localhost old_port m.proxy_port s.backends).0;
        }
      ])

  -- The loop over the old containers, with the count of them.
  unfoldable pub remove_old : List Text → ℕ → State U → ℕ × State U
  remove_old [] removed_count s = (removed_count, s)
  remove_old (id ∷ ids) removed_count s = remove_old ids (removed_count + 1) (
      record_command (rm id)
        (record_command (stop id) (remove_old_backends id opts.port_mappings s)))

  unfoldable pub finish_deploy :
      List Text → Result (List DeployResult) × State U → Result DeployReport × State U
  finish_deploy existing (err e, s) = (err e, s)
  finish_deploy existing (ok results, s) =
      let (removed_count, s') = remove_old existing 0 s in
      (ok (record { results = results; removed_count = removed_count }), s')

  -- A count that is not positive means one replica.
  unfoldable pub replica_count : ℤ → ℕ
  replica_count (pos zero) = 1
  replica_count (pos (suc n)) = suc n
  replica_count (negsuc n) = 1

  unfoldable pub deploy : State U → Result DeployReport × State U
  deploy s = elim (env.find_containers s.history) [
    | none ↦ (err find_failed, record_command ps s)
    | some existing ↦
        finish_deploy existing
          (deploy_replicas (replica_count opts.replicas) 0 (ok [], record_command ps s))
  ]

-- `noopBackendUpdater`
abbrev pub noop_backend_updater : BackendUpdater (Unit {0})
noop_backend_updater = record {
  add_backend = λ host mapped_port proxy_port u. (u, true);
  remove_backend = λ host mapped_port proxy_port u. (u, true);
}

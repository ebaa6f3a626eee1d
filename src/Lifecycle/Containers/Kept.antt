-- ===== src/Lifecycle/Containers/Kept.antt =====
-- The phases of the container command before the deployment leave the version, the CLI and the proxies
-- as they were.
use dewy.Common.{
  ℕ, ◌≤◌, ◌≡◌, refl, ap, ◌∙◌, ◌⊎◌, inl, inr, Bool, true, false, Option, none, some, arith,
  Bool-cases, Text,
}
use dewy.Lifecycle.Outside.{
  Config, CurrentResponse, Cache, Outside, Dewy, pull_error, deploy_error, Error, Result, ok, err,
}
use dewy.Lifecycle.Phases.{emit, make_artifact}
use dewy.Lifecycle.Outcome.{Outcome}
use dewy.Lifecycle.Containers.{
  ContainerConfig, Runtimes, Daemon, on_dewy, log, end_pull, with_artifact, pull_container_image,
}
use dewy.Container.Deploy.Defs.{localhost, add_failed}
use dewy.Proxy.Backends.{holds}

-- The version, the history of the CLI and the proxies are as before.
pub record IsKept {C : Type 0} (s s' : Daemon C) : Type 0 where
  pub c_ver : s'.dewy.c_ver ≡ s.dewy.c_ver
  pub cli : s'.cli ≡ s.cli

abbrev pub After : {A C : Type 0} → Daemon C → A → Daemon C → Type 0
After s a s' = IsKept s s'

-- What has ended with an error: the version is as before, and a backend is held no more often
-- than before, and as often unless an addition failed.
pub record IsFailed {C : Type 0} (p0 q0 : ℕ) (s : Daemon C) (e : Error) (s' : Daemon C)
    : Type 0 where
  pub c_ver : s'.dewy.c_ver ≡ s.dewy.c_ver
  pub at_most : holds localhost q0 p0 s'.cli.backends ≤ holds localhost q0 p0 s.cli.backends
  pub as_often :
      (e ≡ deploy_error add_failed)
      ⊎ (holds localhost q0 p0 s'.cli.backends ≡ holds localhost q0 p0 s.cli.backends)

pub kept-IsFailed :
    {C : Type 0} (p0 q0 : ℕ) (s s' : Daemon C) (e : Error) → IsKept s s' → IsFailed p0 q0 s e s'
kept-IsFailed p0 q0 s s' e h =
    let same : holds localhost q0 p0 s'.cli.backends ≡ holds localhost q0 p0 s.cli.backends =
      ap (λ c. holds localhost q0 p0 c.backends) h.cli in
    record { c_ver = h.c_ver; at_most = omega arith; as_often = inr same }

module _ {C : Type 0} (cache : Cache C) (outside : Outside) (config : Config) (runtimes : Runtimes)
    (settings : ContainerConfig) (p0 q0 : ℕ) where
  make_artifact-c_ver :
      (url : Text) (a : Option Text) (d : Dewy C)
      → (make_artifact cache outside config url a d).1.c_ver ≡ d.c_ver
  unfolding make_artifact emit
  make_artifact-c_ver url (some u) d = refl
  make_artifact-c_ver url none d = elim (Bool-cases (outside.can_make_artifact d.trace url)) [
    | inl y ↦ rw y refl
    | inr n ↦ rw n refl
  ]

  end_pull-IsKept :
      (tag url : Text) (b : Bool) (s0 s : Daemon C)
      → IsKept s0 s
      → Outcome
          (After s0)
          (IsFailed p0 q0 s0)
          (end_pull cache outside config runtimes settings tag url b s)
  unfolding end_pull log on_dewy emit
  end_pull-IsKept tag url true s0 s h = record { c_ver = h.c_ver; cli = h.cli }
  end_pull-IsKept tag url false s0 s h =
      kept-IsFailed p0 q0 s0 _ pull_error (record { c_ver = h.c_ver; cli = h.cli })

  with_artifact-IsKept :
      (tag : Text) (r : Result Text × Dewy C) (s0 s : Daemon C)
      → r.1.c_ver ≡ s0.dewy.c_ver
      → s.cli ≡ s0.cli
      → Outcome
          (After s0)
          (IsFailed p0 q0 s0)
          (with_artifact cache outside config runtimes settings tag r s)
  unfolding with_artifact
  with_artifact-IsKept tag (err e, d) s0 s h k =
      kept-IsFailed p0 q0 s0 (record s { dewy = d }) e (record { c_ver = h; cli = k })
  with_artifact-IsKept tag (ok url, d) s0 s h k =
      end_pull-IsKept tag url (runtimes.can_pull d.trace url) s0 (record s { dewy = d })
        (record { c_ver = h; cli = k })

  pub pull_container_image-IsKept :
      (res : CurrentResponse) (s0 s : Daemon C)
      → IsKept s0 s
      → Outcome
          (After s0)
          (IsFailed p0 q0 s0)
          (pull_container_image cache outside config runtimes settings res s)
  unfolding pull_container_image
  pull_container_image-IsKept res s0 s h =
      with_artifact-IsKept res.tag
        (make_artifact cache outside config res.artifact_url s.dewy.artifact s.dewy) s0 s
        (make_artifact-c_ver res.artifact_url s.dewy.artifact s.dewy ∙ h.c_ver) h.cli

-- ===== src/Lifecycle/Promotion.antt =====
-- The phases from the new link on: they promote the release, or the server does not start.
use dewy.Common.{
  ◌≡◌, refl, ◌∙◌, ◌≢◌, ◌⊎◌, inl, inr, Bool, true, false, some, List, [], ◌∷◌, Bool-cases, Text,
  codes,
}
use dewy.Lifecycle.Outside.{
  Command, server, assets, container, Config, CurrentResponse, Event, Cache, Outside, Dewy, Error,
  server_error,
}
use mathlib.Core.Path.{subst}
use dewy.Lifecycle.Keys.{cache_key_name}
use dewy.Lifecycle.Phases.{
  CacheState, done, emit, exec_hook, swap_link, deploy, apply_deployment, restart_server,
  start_server, count_if, start_or_restart_server, report_deployment, start_server_if,
  promote_and_report, run_deploy,
}
use dewy.Lifecycle.Outcome.{Outcome, Outcome-if, Outcome-if_cases, Outcome-and_then, Outcome-weaken}
use dewy.Lifecycle.Kept.{
  IsRelease, IsSame, Before, Kept, exec_hook-IsSame, download_and_cache-Kept, preserve-IsRelease,
}

-- The link points at the directory of a release, which has the archive of the key in it.
abbrev pub Linked : {C : Type 0} → Outside → Text → Dewy C → Type 0
Linked outside key s = (dir : Text) × (s.current ≡ some dir) × IsRelease outside key dir

abbrev pub IsLinked : {A C : Type 0} → Outside → Text → A → Dewy C → Type 0
IsLinked outside key a s = Linked outside key s

-- A release runs that the registry has answered with: its tag is the version, the link points at
-- the directory with its archive, and the server runs where there is to be one.
pub record IsPromoted {C : Type 0} (outside : Outside) (config : Config) (res : CurrentResponse)
    (s : Dewy C) : Type 0 where
  pub c_ver : s.c_ver ≡ res.tag
  pub is_linked : Linked outside (cache_key_name res) s
  pub is_server_running : (s.is_server_running ≡ true) ⊎ (config.command ≢ server)

abbrev pub Promoted : {A C : Type 0} → Outside → Config → CurrentResponse → A → Dewy C → Type 0
Promoted outside config res a s = IsPromoted outside config res s

abbrev pub IsServerError : {C : Type 0} → Error → Dewy C → Type 0
IsServerError e s = e ≡ server_error

abbrev pub IsRunning : {A C : Type 0} → A → Dewy C → Type 0
IsRunning a s = s.is_server_running ≡ true

pub running_after : {N : Type 0} (b b' : Bool) → (b ≡ true) ⊎ N → b' ≡ b → (b' ≡ true) ⊎ N
running_after b b' (inl y) e = inl (e ∙ y)
running_after b b' (inr n) e = inr n

module _ {C : Type 0} (cache : Cache C) (outside : Outside) (config : Config) where
  pub exec_hook-current :
      (name cmd : Text) (s : Dewy C)
      → (exec_hook cache outside config name cmd s).current ≡ s.current
  unfolding exec_hook emit
  exec_hook-current name [] s = refl
  exec_hook-current name (c ∷ cmd) s = elim (Bool-cases (outside.can_run_hook s.trace)) [
    | inl y ↦ rw y refl
    | inr n ↦ rw n refl
  ]

  pub swap_link-IsLinked :
      (key dir : Text) (s0 s : Dewy C)
      → IsRelease outside key dir
      → IsSame s0 s
      → Outcome (IsLinked outside key) (Kept s0) (swap_link cache outside config dir s)
  unfolding swap_link emit
  swap_link-IsLinked key dir s0 s r h =
      let same : (t : List Event) → IsSame s0 (record s { trace = t }) = λ t. record {
        c_ver = h.c_ver;
        is_server_running = h.is_server_running;
        current = h.current;
      } in
      Outcome-if (IsLinked outside key) (Kept s0) (outside.can_make_link _) _ _
        (Outcome-if (IsLinked outside key) (Kept s0) (outside.can_rename_link _) _ _ (dir, refl, r)
          (inl (same _)))
        (inl (same _))

  pub deploy-IsLinked :
      (key : Text) (s0 s : Dewy C)
      → IsSame s0 s
      → Outcome (IsLinked outside key) (Kept s0) (deploy cache outside config key s)
  unfolding deploy emit
  deploy-IsLinked key s0 s h =
      Outcome-and_then (λ dir t. IsSame s0 t × IsRelease outside key dir) (IsLinked outside key)
        (Kept s0) _ _
        (preserve-IsRelease cache outside config s0 key _ (
          exec_hook-IsSame cache outside config s0 (codes "Before Deploy") config.before_deploy_hook
            s h))
        (λ dir t (k, r).
          Outcome-and_then (IsLinked outside key) (IsLinked outside key) (Kept s0) _ _
            (swap_link-IsLinked key dir s0 _ r (record {
              c_ver = k.c_ver;
              is_server_running = k.is_server_running;
              current = k.current;
            }))
            (λ _ u l.
              let (dir', e, r') = l in
              (dir', exec_hook-current (codes "After Deploy") config.after_deploy_hook u ∙ e, r')))

  abbrev pub Started : {A : Type 0} → CurrentResponse → A → Dewy C → Type 0
  Started res a s =
      (s.c_ver ≡ res.tag) × Linked outside (cache_key_name res) s × (s.is_server_running ≡ true)

  pub count_if-Started :
      (res : CurrentResponse) (b : Bool) (s : Dewy C)
      → Started res done s
      → Started res done (count_if cache outside config b s)
  unfolding count_if emit
  count_if-Started res true s h = h
  count_if-Started res false s h = h

  pub restart_server-Started :
      (res : CurrentResponse) (s : Dewy C)
      → Started res done s
      → Outcome (Started res) IsServerError (restart_server cache outside config s)
  unfolding restart_server emit
  restart_server-Started res s h = elim (Bool-cases (outside.can_signal s.trace)) [
    | inl y ↦ rw (y, Outcome) h
    | inr n ↦ rw (n, Outcome) refl
  ]

  pub start_server-Started :
      (res : CurrentResponse) (s : Dewy C)
      → s.c_ver ≡ res.tag
      → Linked outside (cache_key_name res) s
      → Outcome (Started res) IsServerError (start_server cache outside config s)
  unfolding start_server emit
  start_server-Started res s h k =
      Outcome-if (Started res) IsServerError (outside.can_start s.trace) _ _ (h, k, refl) refl

  pub start_or_restart_server-Started :
      (res : CurrentResponse) (s : Dewy C)
      → s.c_ver ≡ res.tag
      → Linked outside (cache_key_name res) s
      → Outcome (Started res) IsServerError (start_or_restart_server cache outside config s)
  unfolding start_or_restart_server emit
  start_or_restart_server-Started res s h k =
      Outcome-if_cases (Started res) IsServerError s.is_server_running _ _
        (λ y.
          Outcome-and_then (Started res) (Started res) IsServerError _ _
            (restart_server-Started res s (h, k, y))
            (λ _ t l. count_if-Started res config.telemetry_on t l))
        (λ n.
          Outcome-and_then (Started res) (Started res) IsServerError _ _
            (start_server-Started res s h k) (λ _ t l. l))

  pub report_deployment-fields :
      (res : CurrentResponse) (s : Dewy C)
      → ((report_deployment cache outside config res s).c_ver ≡ s.c_ver)
        × ((report_deployment cache outside config res s).current ≡ s.current)
        × ((report_deployment cache outside config res s).is_server_running ≡ s.is_server_running)
  unfolding report_deployment emit
  report_deployment-fields res s = elim (Bool-cases config.disable_report) [
    | inl y ↦ rw y (refl, refl, refl)
    | inr n ↦ rw n (refl, refl, refl)
  ]

  pub report_deployment-IsPromoted :
      (res : CurrentResponse) (s : Dewy C)
      → IsPromoted outside config res s
      → IsPromoted outside config res (report_deployment cache outside config res s)
  report_deployment-IsPromoted res s h =
      let (a, b, c) = report_deployment-fields res s in
      let (dir, e, r) = h.is_linked in
      record {
        c_ver = a ∙ h.c_ver;
        is_linked = (dir, b ∙ e, r);
        is_server_running = running_after _ _ h.is_server_running c;
      }

  pub start_server_if-IsPromoted :
      (res : CurrentResponse) (command : Command) (s : Dewy C)
      → config.command ≡ command
      → s.c_ver ≡ res.tag
      → Linked outside (cache_key_name res) s
      → Outcome
          (Promoted outside config res)
          IsServerError
          (start_server_if cache outside config command s)
  unfolding start_server_if
  start_server_if-IsPromoted res server s e h k =
      Outcome-weaken (Started res) (Promoted outside config res) IsServerError IsServerError _
        (start_or_restart_server-Started res s h k)
        (λ _ t l. record { c_ver = l.0; is_linked = l.1; is_server_running = inl l.2 }) (λ _ t l. l)
  start_server_if-IsPromoted res assets s e h k = record {
    c_ver = h;
    is_linked = k;
    is_server_running = inr λ f. cc;
  }
  start_server_if-IsPromoted res container s e h k = record {
    c_ver = h;
    is_linked = k;
    is_server_running = inr λ f. cc;
  }

  pub promote_and_report-IsPromoted :
      (res : CurrentResponse) (s : Dewy C)
      → Linked outside (cache_key_name res) s
      → Outcome
          (Promoted outside config res)
          IsServerError
          (promote_and_report cache outside config res s)
  unfolding promote_and_report emit
  promote_and_report-IsPromoted res s h =
      Outcome-and_then (Promoted outside config res) (Promoted outside config res) IsServerError _ _
        (start_server_if-IsPromoted res config.command _ refl refl h)
        (λ _ t k.
          let l = report_deployment-IsPromoted res t k in
          record {
            c_ver = l.c_ver;
            is_linked = l.is_linked;
            is_server_running = l.is_server_running;
          })

  pub run_deploy-IsPromoted :
      (res : CurrentResponse) (st : CacheState) (s0 s : Dewy C)
      → st.key ≡ cache_key_name res
      → IsSame s0 s
      → Outcome (Promoted outside config res) (Kept s0) (run_deploy cache outside config res st s)
  unfolding run_deploy apply_deployment emit
  run_deploy-IsPromoted res st s0 s same h =
      Outcome-and_then (Before s0) (Promoted outside config res) (Kept s0) _ _
        (download_and_cache-Kept cache outside config s0 res st s h)
        (λ _ t k.
          Outcome-and_then (IsLinked outside st.key) (Promoted outside config res) (Kept s0) _ _
            (deploy-IsLinked st.key s0 _ (record {
              c_ver = k.c_ver;
              is_server_running = k.is_server_running;
              current = k.current;
            }))
            (λ _ u l.
              Outcome-weaken (Promoted outside config res) (Promoted outside config res)
                IsServerError (Kept s0) _
                (promote_and_report-IsPromoted res u
                  (subst (λ (key : Text). Linked outside key u) same l))
                (λ _ t m. m) (λ _ t m. inr m)))

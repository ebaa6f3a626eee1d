-- ===== src/Container/HealthCheck.antt =====
-- The health checks: `createHealthCheckFunc` of container_deploy.go, which a rolling deployment runs, and
-- `CheckHTTP` and `CheckTCP` of container/healthcheck.go. The answer to each attempt is a parameter.
pub mod Attempts
use dewy.Common.{
  ℕ, zero, suc, ◌+◌, ◌≤◌, ◌<◌, ◌≡◌, refl, inl, inr, Bool, true, false, ◌&&◌, Option, none, some,
  arith, ltb, leb, ◌==◌, if◌then◌else◌, Bool-cases, eq_of_==,
}

abbrev default_health_check_retries : ℕ
default_health_check_retries = 5

-- The statuses that each of the two HTTP checks takes for healthy.
unfoldable pub is_healthy : ℕ → ℕ → Bool
is_healthy limit status = leb 200 status && ltb status limit

-- What comes of an attempt of `CheckHTTP`: there is no request for the URL, no response, or a status.
pub data Response : Type 0 where
  no_request no_response : Response
  status : ℕ → Response

-- What an attempt means for the loop: the check fails at once, goes on, or passes.
pub data Verdict : Type 0 where
  ends fails passes : Verdict

unfoldable pub verdict_if : Bool → Verdict
verdict_if healthy = if healthy then passes else fails

unfoldable pub verdict_of : ℕ → Response → Verdict
unfolding is_healthy verdict_if
verdict_of limit no_request = ends
verdict_of limit no_response = fails
verdict_of limit (status s) = verdict_if (is_healthy limit s)

-- The loop over the attempts, from one on: the number of attempts that are made, and whether the
-- check passes.
unfoldable pub attempt_from : (ℕ → Verdict) → ℕ → ℕ → ℕ × Bool
attempt_from attempt i zero = (i, false)
attempt_from attempt i (suc retries) =
    let rest = attempt_from attempt (i + 1) retries in
    elim (attempt i) [ ends ↦ (i + 1, false) | fails ↦ rest | passes ↦ (i + 1, true) ]

-- `CheckHTTP`, with what comes of its attempts.
unfoldable pub check_http : ℕ → (ℕ → Response) → ℕ × Bool
check_http retries responses = attempt_from (λ i. verdict_of 300 (responses i)) 0 retries

-- `CheckTCP`, with whether each attempt connects.
unfoldable pub check_tcp : ℕ → (ℕ → Bool) → ℕ × Bool
check_tcp retries connects = attempt_from (λ i. verdict_if (connects i)) 0 retries

-- The response of `client.Get`, whose errors are all alike.
unfoldable pub response_of : Option ℕ → Response
response_of none = no_response
response_of (some s) = status s

-- The function that `createHealthCheckFunc` returns; `none` where the mapped port is not found.
unfoldable pub health_check : Option ℕ → (ℕ → ℕ → Option ℕ) → ℕ × Bool
health_check none answers = (0, false)
health_check (some mapped_port) answers =
    attempt_from (λ i. verdict_of 400 (response_of (answers mapped_port i))) 0
      default_health_check_retries

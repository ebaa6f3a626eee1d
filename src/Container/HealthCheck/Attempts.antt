-- ===== src/Container/HealthCheck/Attempts.antt =====
-- How often the loops of the health checks try, and when they pass.
use dewy.Common.{ℕ, ◌+◌, ◌≤◌, ◌<◌, ◌≡◌, ◌⊎◌, Bool, true, false, Option, some}
use dewy.Container.HealthCheck.{Response, status, Verdict, ends, fails, passes}

-- An attempt that ends the loop, after others that fail, or all attempts fail.
abbrev IsFirst : (ℕ → Verdict) → ℕ → ℕ → ℕ × Bool → Type 0
IsFirst attempt i retries (n, false) =
    ((n ≡ i + retries) × ((j : ℕ) → i ≤ j → j < i + retries → attempt j ≡ fails))
    ⊎ ((k : ℕ) × (n ≡ k + 1)
        × (i ≤ k)
        × (k < i + retries)
        × (attempt k ≡ ends)
        × ((j : ℕ) → i ≤ j → j < k → attempt j ≡ fails))
IsFirst attempt i retries (n, true) =
    (k : ℕ) × (n ≡ k + 1)
    × (i ≤ k)
    × (k < i + retries)
    × (attempt k ≡ passes)
    × ((j : ℕ) → i ≤ j → j < k → attempt j ≡ fails)

-- Of so many attempts, a check passes at the first one that is good, after no other, or it fails
-- after all attempts or at one that stops it, after none that is good.
abbrev pub Checks : (ℕ → Type 0) → (ℕ → Type 0) → ℕ → ℕ × Bool → Type 0
Checks Good Stops retries (n, false) =
    ((n ≡ retries) × ((j : ℕ) → j < retries → Good j → ⊥))
    ⊎ ((k : ℕ) × (n ≡ k + 1) × (k < retries) × Stops k × ((j : ℕ) → j < k → Good j → ⊥))
Checks Good Stops retries (n, true) =
    (k : ℕ) × (n ≡ k + 1) × (k < retries) × Good k × ((j : ℕ) → j < k → Good j → ⊥)

-- A status from 200 on and below the limit.
abbrev pub IsGood : ℕ → Response → Type 0
IsGood limit r = (s : ℕ) × (r ≡ status s) × (200 ≤ s) × (s < limit)

-- A status of `client.Get` from 200 on and below 400.
abbrev pub IsGoodAnswer : Option ℕ → Type 0
IsGoodAnswer answer = (s : ℕ) × (answer ≡ some s) × (200 ≤ s) × (s < 400)

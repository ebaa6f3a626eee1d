-- ===== src/Container/Images/Attempts.antt =====
-- How often `Pull` of container/image.go asks the CLI to pull.
use dewy.Common.{
  ℕ, ◌+◌, ◌≤◌, ◌≡◌, refl, ◌⊎◌, inl, inr, Bool, true, false, not, ◌&&◌, ◌||◌, List, [], ◌∷◌, ◌++◌,
  arith, Bool-cases, Text, text_eq,
}
use dewy.Container.Images.Names.{extract_registry}
use dewy.Container.Images.Pulling.{
  CliCommand, inspect, pull, login, Session, Cli, is_in, without, ran, get_credentials, call_login,
  pull_image, login_first, pull_again, pull_retried, or_local, call_pull, is_auth_error,
}

pub is_pull : CliCommand → ℕ
is_pull (inspect ref) = 0
is_pull (pull ref) = 1
is_pull (login user registry) = 0

pub pulls_in : List CliCommand → ℕ
pulls_in [] = 0
pulls_in (c ∷ cs) = is_pull c + pulls_in cs

pulls_in-append :
    (cs : List CliCommand) (c : CliCommand) → pulls_in (cs ++ c ∷ []) ≡ pulls_in cs + is_pull c
unfolding pulls_in
pulls_in-append [] c = omega arith
pulls_in-append (d ∷ cs) c = omega (arith, pulls_in-append cs c)

module _ (cli : Cli) where
  call_login-pulls :
      (registry : Text) (s : Session)
      → pulls_in (call_login cli registry s).1.commands ≡ pulls_in s.commands
  unfolding call_login ran is_pull
  call_login-pulls registry s =
      let (username, password) = get_credentials cli registry in
      let more = pulls_in-append s.commands (login username registry) in
      elim (Bool-cases (text_eq username [] || text_eq password [])) [
        | inl y ↦ rw (y, call_login) refl
        | inr n ↦ elim (Bool-cases (cli.run s.commands (login username registry)).1) [
          | inl z ↦ rw (n, z, call_login) (omega (arith, more))
          | inr z ↦ rw (n, z, call_login) (omega (arith, more))
        ]
      ]

  pull_image-pulls :
      (image_ref : Text) (s : Session)
      → pulls_in (pull_image cli image_ref s).2.commands ≡ pulls_in s.commands + 1
  unfolding pull_image ran is_pull
  pull_image-pulls image_ref s = pulls_in-append s.commands (pull image_ref)

  login_first-pulls :
      (registry : Text) (s : Session)
      → pulls_in (login_first cli registry s).commands ≡ pulls_in s.commands
  unfolding login_first
  login_first-pulls registry s = elim (Bool-cases (is_in registry s.logged_in)) [
    | inl y ↦ rw (y, login_first) refl
    | inr n ↦ rw (n, login_first) (call_login-pulls registry s)
  ]

  pull_again-pulls :
      (image_ref registry : Text) (s : Session)
      → (pulls_in s.commands ≤ pulls_in (pull_again cli image_ref registry s).1.commands)
        × (pulls_in (pull_again cli image_ref registry s).1.commands ≤ pulls_in s.commands + 1)
  unfolding pull_again
  pull_again-pulls image_ref registry s =
      let out : Session = record s { logged_in = without registry s.logged_in } in
      let s1 = (call_login cli registry out).1 in
      let same = call_login-pulls registry out in
      let one = pull_image-pulls image_ref s1 in
      elim (Bool-cases (call_login cli registry out).0) [
        | inl y ↦ rw (y, pull_again) (omega (arith, same, one), omega (arith, same, one))
        | inr n ↦ rw (n, pull_again) (omega (arith, same), omega (arith, same))
      ]

  pull_retried-pulls :
      (image_ref registry output : Text) (pulled : Bool) (s : Session)
      → (pulls_in s.commands
          ≤ pulls_in (pull_retried cli image_ref registry (output, pulled, s)).1.commands)
        × (pulls_in (pull_retried cli image_ref registry (output, pulled, s)).1.commands
            ≤ pulls_in s.commands + 1)
  unfolding pull_retried
  pull_retried-pulls image_ref registry output pulled s =
      elim (Bool-cases (not pulled && is_auth_error output)) [
        | inl y ↦ rw (y, pull_retried) (pull_again-pulls image_ref registry s)
        | inr n ↦ rw (n, pull_retried) (omega arith, omega arith)
      ]

  or_local-commands :
      (b : Bool) (r : Bool × Session)
      → pulls_in (or_local cli b r).1.commands ≡ pulls_in r.1.commands
  unfolding or_local
  or_local-commands b (pulled, s) = refl

  or_local-true : (b : Bool) (r : Bool × Session) → b ≡ true → (or_local cli b r).0 ≡ true
  unfolding or_local
  or_local-true b (true, s) h = refl
  or_local-true b (false, s) h = h

  -- `Pull` asks the CLI to pull once or twice, and it has no error where the image is there already.
  pub call_pull-attempts :
      (image_ref : Text) (s : Session)
      → (pulls_in s.commands + 1 ≤ pulls_in (call_pull cli image_ref s).1.commands)
        × (pulls_in (call_pull cli image_ref s).1.commands ≤ pulls_in s.commands + 2)
        × (((cli.run s.commands (inspect image_ref)).1 ≡ false)
            ⊎ ((call_pull cli image_ref s).0 ≡ true))
  unfolding call_pull ran is_pull pull_image
  call_pull-attempts image_ref s =
      let registry = extract_registry image_ref in
      let s0 = ran cli (inspect image_ref) s in
      let s1 = login_first cli registry s0 in
      let (output, pulled, s2) = pull_image cli image_ref s1 in
      let (shown, is_local) = cli.run s.commands (inspect image_ref) in
      let looked = pulls_in-append s.commands (inspect image_ref) in
      let first = login_first-pulls registry s0 in
      let one = pull_image-pulls image_ref s1 in
      let again = pull_retried-pulls image_ref registry output pulled s2 in
      let last =
        or_local-commands is_local (pull_retried cli image_ref registry (output, pulled, s2)) in
      (
        omega (arith, looked, first, one, again.0, again.1, last),
        omega (arith, looked, first, one, again.0, again.1, last),
        elim (Bool-cases is_local) [
          | inr n ↦ inl n
          | inl y ↦
              inr (
                or_local-true is_local (pull_retried cli image_ref registry (output, pulled, s2)) y)
        ],
      )

-- ===== src/Container/Images/Pulling.antt =====
-- `Pull` of container/image.go and `Login` of container/credentials.go. The CLI answers each command with
-- an output and whether it went well, which may depend on all commands before.
use dewy.Common.{
  Bool, true, false, not, ◌&&◌, ◌||◌, List, [], ◌∷◌, ◌++◌, if◌then◌else◌, any_of, Text, codes,
  text_eq, contains, to_lower,
}
use dewy.Container.Images.Names.{extract_registry}

pub data CliCommand : Type 0 where
  inspect pull : Text → CliCommand
  login : Text → Text → CliCommand

-- What a `Runtime` remembers, and the commands that were run.
pub record Session : Type 0 where
  pub logged_in : List Text
  pub commands : List CliCommand

pub record Cli : Type 0 where
  pub run : List CliCommand → CliCommand → Text × Bool
  -- `os.Getenv`
  pub getenv : Text → Text

abbrev auth_indicators : List Text
auth_indicators =
    codes "unauthorized"
    ∷ codes "authentication required"
    ∷ codes "denied"
    ∷ codes "access forbidden"
    ∷ codes "not authorized"
    ∷ codes "login required"
    ∷ []

unfoldable pub is_auth_error : Text → Bool
is_auth_error output = any_of (contains (to_lower output)) auth_indicators

unfoldable pub is_in : Text → List Text → Bool
is_in registry registries = any_of (λ r. text_eq r registry) registries

-- `delete(r.loggedInRegistries, registry)`
unfoldable pub without : Text → List Text → List Text
without registry [] = []
without registry (r ∷ rs) =
    let rest = without registry rs in if text_eq r registry then rest else r ∷ rest

module _ (cli : Cli) where
  unfoldable pub ran : CliCommand → Session → Session
  ran c s = record s { commands = s.commands ++ c ∷ [] }

  unfoldable pub github_token : Text → Bool
  github_token registry =
      contains registry (codes "ghcr.io") && not (text_eq (cli.getenv (codes "GITHUB_TOKEN")) [])

  unfoldable pub ecr_password : Text → Bool
  ecr_password registry =
      contains registry (codes ".ecr.")
      && contains registry (codes ".amazonaws.com")
      && not (text_eq (cli.getenv (codes "AWS_ECR_PASSWORD")) [])

  unfoldable pub gcr_token : Text → Bool
  gcr_token registry =
      (contains registry (codes "gcr.io") || contains registry (codes "-docker.pkg.dev"))
      && not (text_eq (cli.getenv (codes "GCR_TOKEN")) [])

  unfoldable pub get_credentials : Text → Text × Text
  get_credentials registry =
      if github_token registry
      then (codes "token", cli.getenv (codes "GITHUB_TOKEN"))
      else if ecr_password registry
      then (codes "AWS", cli.getenv (codes "AWS_ECR_PASSWORD"))
      else if gcr_token registry
      then (codes "_json_key", cli.getenv (codes "GCR_TOKEN"))
      else (cli.getenv (codes "DOCKER_USERNAME"), cli.getenv (codes "DOCKER_PASSWORD"))

  -- `Login`; without credentials there is nothing to do, and no error.
  unfoldable pub call_login : Text → Session → Bool × Session
  call_login registry s =
      let (username, password) = get_credentials registry in
      let (output, logged) = cli.run s.commands (login username registry) in
      let s' = ran (login username registry) s in
      if text_eq username [] || text_eq password []
      then (true, s)
      else if logged
      then (true, record s' { logged_in = registry ∷ s'.logged_in })
      else (false, s')

  -- `pullImage`
  unfoldable pub pull_image : Text → Session → Text × Bool × Session
  pull_image image_ref s =
      let (output, pulled) = cli.run s.commands (pull image_ref) in
      (output, pulled, ran (pull image_ref) s)

  unfoldable pub login_first : Text → Session → Session
  login_first registry s = if is_in registry s.logged_in then s else (call_login registry s).1

  -- The second attempt after a new login; without one the first failure stays.
  unfoldable pub pull_again : Text → Text → Session → Bool × Session
  pull_again image_ref registry s =
      let (logged, s1) =
        call_login registry (record s { logged_in = without registry s.logged_in }) in
      let (output, pulled, s2) = pull_image image_ref s1 in
      if logged then (pulled, s2) else (false, s1)

  unfoldable pub pull_retried : Text → Text → Text × Bool × Session → Bool × Session
  pull_retried image_ref registry (output, pulled, s) =
      if not pulled && is_auth_error output then pull_again image_ref registry s else (pulled, s)

  -- An image that is there already will do.
  unfoldable pub or_local : Bool → Bool × Session → Bool × Session
  or_local is_local (pulled, s) = (pulled || is_local, s)

  -- `Pull`
  unfoldable pub call_pull : Text → Session → Bool × Session
  call_pull image_ref s =
      let (output, is_local) = cli.run s.commands (inspect image_ref) in
      let registry = extract_registry image_ref in
      let s1 = login_first registry (ran (inspect image_ref) s) in
      or_local is_local (pull_retried image_ref registry (pull_image image_ref s1))

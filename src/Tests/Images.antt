-- ===== src/Tests/Images.antt =====
-- Image references, and the commands for images.
use dewy.Common.{ℕ, ◌+◌, ◌≤◌, ◌≡◌, refl, ◌⊎◌, true, false, List, [], ◌∷◌, ◌++◌, Text, codes}
use dewy.Container.Images.{ImageInfo}
use dewy.Container.Images.Names.{image_repository_from_ref, image_repository_from_ref-tag}
use dewy.Container.Images.Pulling.{Session, Cli, call_pull}
use dewy.Container.Images.Attempts.{pulls_in, call_pull-attempts}

abbrev local_app : Text
local_app = codes "localhost:5000/app"

image_repository_from_ref-tag_example :
    (image_repository_from_ref (local_app ++ b':' ∷ codes "v1.2") ≡ local_app)
    × (image_repository_from_ref ((local_app ++ b':' ∷ codes "v1.2") ++ b'@' ∷ codes "sha256:7")
        ≡ local_app)
image_repository_from_ref-tag_example =
    image_repository_from_ref-tag local_app (codes "v1.2") (codes "sha256:7") refl refl refl refl

abbrev image_at : ℕ → Text → ImageInfo
image_at t id = record { id = id; repository = local_app; tag = codes "v1"; created = t }

abbrev images : List ImageInfo
images = image_at 3 (codes "c") ∷ image_at 9 (codes "a") ∷ image_at 5 (codes "b") ∷ []

-- A CLI that must be logged in to again, and an image that is not there.
abbrev strict_cli : Cli
strict_cli = record { run = λ cs c. (codes "denied", false); getenv = λ name. codes "secret" }

abbrev session : Session
session = record { logged_in = codes "ghcr.io" ∷ []; commands = [] }

call_pull-attempts_example :
    (pulls_in [] + 1
      ≤ pulls_in (call_pull strict_cli (codes "ghcr.io/linyows/app:v1") session).1.commands)
    × (pulls_in (call_pull strict_cli (codes "ghcr.io/linyows/app:v1") session).1.commands
        ≤ pulls_in [] + 2)
    × ((false ≡ false) ⊎ ((call_pull strict_cli (codes "ghcr.io/linyows/app:v1") session).0 ≡ true))
call_pull-attempts_example = call_pull-attempts strict_cli (codes "ghcr.io/linyows/app:v1") session

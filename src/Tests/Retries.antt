-- ===== src/Tests/Retries.antt =====
-- Two ticks of the assets command, of which the first cannot rename the link.
use dewy.Common.{
  ◌≡◌, refl, inl, inr, true, false, Option, none, some, List, [], ◌∷◌, if◌then◌else◌, Bool-cases,
  Text, codes, text_eq, text_eq_refl,
}
use mathlib.Core.Option.{some-injective}
use dewy.Lifecycle.Outside.{assets, Config, CurrentResponse, found, Cache, Outside, Dewy}
use dewy.Lifecycle.Keys.{is_listed}
use dewy.Lifecycle.Phases.{run}
use dewy.Lifecycle.Outcome.{Outcome}
use dewy.Lifecycle.Retry.{CacheLaws}
use dewy.Lifecycle.Retry.Skipped.{NotTriedAgain, run-NotTriedAgain}

abbrev Entries : Type 0
Entries = List (Text × Text)

abbrev find : Text → Entries → Option Text
find k [] = none
find k ((j, v) ∷ m) = if text_eq j k then some v else find k m

abbrev keys : Entries → List Text
keys [] = []
keys ((j, v) ∷ m) = j ∷ keys m

-- A cache that keeps all that is written, the latest first.
abbrev store : Cache Entries
store = record {
  read = λ key c. (find key c, c);
  list = λ c. some (keys c);
  write = λ key value c. ((key, value) ∷ c, true);
}

find-written : (k v : Text) (c : Entries) → find k ((k, v) ∷ c) ≡ some v
find-written k v c = rw (text_eq_refl k) refl

is_listed-first : (k : Text) (ks : List Text) → is_listed k (k ∷ ks) ≡ true
unfolding is_listed
is_listed-first k ks = rw (text_eq_refl k) refl

is_listed-later :
    (k j : Text) (ks : List Text) → is_listed k ks ≡ true → is_listed k (j ∷ ks) ≡ true
unfolding is_listed
is_listed-later k j ks h = elim (Bool-cases (text_eq j k)) [ inl y ↦ rw y refl | inr n ↦ rw n h ]

store-CacheLaws : CacheLaws store
store-CacheLaws = record {
  read_read = λ k j c. refl;
  list_read = λ j c. refl;
  read_write = λ k v c h. find-written k v c;
  list_write = λ k v c h. (k ∷ keys c, refl, is_listed-first k (keys c));
  still_listed = λ k j v c l h e m.
      (j ∷ keys c, refl, is_listed-later k j (keys c) (rw (some-injective (keys c) l e) m));
}

abbrev archive : CurrentResponse
archive = record {
  id = codes "7";
  tag = codes "v1.2.3";
  artifact_url = codes "ghr://linyows/app/app.tar.gz";
  slot = [];
}

abbrev broken_disk : Outside
broken_disk = record {
  current = λ t. found archive;
  can_make_artifact = λ t url. true;
  artifact_writes = λ t url. (codes "bytes" ∷ [], true);
  release_dir = λ t. codes "releases/20260101T000000Z";
  can_make_release = λ t. true;
  can_extract = λ t key. true;
  can_make_link = λ t. true;
  can_rename_link = λ t. false;
  can_start = λ t. true;
  can_signal = λ t. true;
  can_run_hook = λ t. true;
}

abbrev assets_config : Config
assets_config = record {
  command = assets;
  slot = [];
  before_deploy_hook = [];
  after_deploy_hook = [];
  has_ports = false;
  disable_report = true;
  telemetry_on = true;
}

abbrev fresh : Dewy Entries
fresh = record {
  cache = [];
  is_server_running = false;
  c_ver = [];
  artifact = none;
  current = none;
  trace = [];
}

run-NotTriedAgain_example :
    Outcome
      (λ _ _. Unit {0})
      (NotTriedAgain store broken_disk assets_config store-CacheLaws)
      (run store broken_disk assets_config fresh)
run-NotTriedAgain_example =
    run-NotTriedAgain store broken_disk assets_config store-CacheLaws archive fresh refl (λ t. refl)

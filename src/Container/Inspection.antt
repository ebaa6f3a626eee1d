-- ===== src/Container/Inspection.antt =====
-- container/inspect.go: what the container CLI says of containers. The output of a command, the JSON
-- that is decoded from it, and the readers of times and of numbers are parameters; `none` is an error.
use dewy.Common.{
  ℕ, ◌+◌, ◌≡◌, inl, inr, Bool, false, ◌||◌, Option, none, some, List, [], ◌∷◌, if◌then◌else◌,
  Bool-cases, get_elem?, drop, All, Text, codes, text_eq, trim_prefix, split,
}
use dewy.Common.Trim.{trim_space}
use dewy.Container.Images.Names.{last_index}

-- `inspection`, as far as it is read.
pub record Inspection : Type 0 where
  pub id : Text
  pub name : Text
  pub restart_count : ℕ
  pub state : Text
  pub started_at : Text
  pub finished_at : Text
  pub exit_code : ℕ
  pub oom_killed : Bool
  pub image : Text
  pub labels : List (Text × Text)
  -- The host address and port of each binding, by the port of the container.
  pub ports : List (Text × List (Text × Text))

pub record Status : Type 0 where
  pub id : Text
  pub name : Text
  pub image : Text
  pub state : Text
  pub restarts : ℕ
  pub exit_code : ℕ
  pub oom_killed : Bool
  pub replica : Text
  pub version : Text
  pub started_at : ℕ
  pub finished_at : ℕ

-- `Terminated`
unfoldable pub terminated : Status → Bool
terminated s = text_eq s.state (codes "exited") || text_eq s.state (codes "dead")

-- The lines of an output without those that are empty.
unfoldable pub ids_of_lines : List Text → List Text
ids_of_lines [] = []
ids_of_lines (line ∷ lines) =
    let rest = ids_of_lines lines in
    if text_eq (trim_space line) [] then rest else trim_space line ∷ rest

-- `findContainerIDs` on the output of the CLI.
unfoldable pub find_container_ids : Option Text → Option (List Text)
find_container_ids none = none
find_container_ids (some output) =
    if text_eq output [] then some [] else some (ids_of_lines (split output b'\n'))

-- `FindContainerByLabel`; `none` also where there is none.
unfoldable pub find_container_by_label : Option Text → Option Text
find_container_by_label output = elim (find_container_ids output) [
  | none ↦ none
  | some ids ↦ get_elem? ids 0
]

unfoldable pub remove_each : (Text → Bool) → List Text → ℕ
remove_each can_remove [] = 0
remove_each can_remove (id ∷ ids) =
    let removed = remove_each can_remove ids in if can_remove id then removed + 1 else removed

-- `RemoveExited`: how many are removed; an error of one is passed over.
unfoldable pub remove_exited : (Text → Bool) → Option Text → Option ℕ
remove_exited can_remove output = elim (find_container_ids output) [
  | none ↦ none
  | some ids ↦ some (remove_each can_remove ids)
]

-- A map with an entry for a missing key that is empty.
unfoldable pub label : Text → List (Text × Text) → Text
label key [] = []
label key ((k, v) ∷ labels) = if text_eq k key then v else label key labels

unfoldable pub time_of : Option ℕ → ℕ
time_of none = 0
time_of (some t) = t

-- `toStatus`; a time that cannot be read is the zero time.
unfoldable pub to_status : (Text → Option ℕ) → Inspection → Status
to_status parse_time i = record {
  id = i.id;
  name = trim_prefix i.name (codes "/");
  image = i.image;
  state = i.state;
  restarts = i.restart_count;
  exit_code = i.exit_code;
  oom_killed = i.oom_killed;
  replica = label (codes "dewy.replica") i.labels;
  version = label (codes "dewy.version") i.labels;
  started_at = time_of (parse_time i.started_at);
  finished_at = time_of (parse_time i.finished_at);
}

unfoldable pub to_statuses : (Text → Option ℕ) → List Inspection → List Status
to_statuses parse_time [] = []
to_statuses parse_time (i ∷ is) = to_status parse_time i ∷ to_statuses parse_time is

-- `InspectManaged`: no container is inspected where none is found.
unfoldable pub inspect_managed :
    (Text → Option ℕ) → Option Text → (List Text → Option (List Inspection)) → Option (List Status)
inspect_managed parse_time listing inspect = elim (find_container_ids listing) [
  | none ↦ none
  | some [] ↦ some []
  | some (id ∷ ids) ↦ elim (inspect (id ∷ ids)) [
    | none ↦ none
    | some inspections ↦ some (to_statuses parse_time inspections)
  ]
]

abbrev first_line : List Text → Text
first_line [] = []
first_line (line ∷ lines) = trim_space line

-- The number behind the last colon of the first mapping.
unfoldable pub port_of_mapping : (Text → Option ℕ) → Text → Option ℕ
port_of_mapping scan_int mapping = elim (last_index b':' mapping) [
  | none ↦ none
  | some colon ↦ scan_int (drop (colon + 1) mapping)
]

-- `GetMappedPort`, with `fmt.Sscanf` of a number.
unfoldable pub get_mapped_port : (Text → Option ℕ) → Option Text → Option ℕ
get_mapped_port scan_int none = none
get_mapped_port scan_int (some output) =
    if text_eq output [] then none else port_of_mapping scan_int (first_line (split output b'\n'))

-- `GetRunningContainerWithImage`; the empty ID where none runs.
unfoldable pub get_running_container_with_image : Option Text → Option Text
get_running_container_with_image none = none
get_running_container_with_image (some output) =
    if text_eq output [] then some [] else some (first_line (split output b'\n'))

-- No ID that is found is empty.
ids_of_lines_nonempty : (lines : List Text) → All (λ id. text_eq id [] ≡ false) (ids_of_lines lines)
unfolding ids_of_lines
ids_of_lines_nonempty [] = tt
ids_of_lines_nonempty (line ∷ lines) = elim (Bool-cases (text_eq (trim_space line) [])) [
  | inl y ↦ rw (y, ids_of_lines) (ids_of_lines_nonempty lines)
  | inr n ↦ rw (n, ids_of_lines) (n, ids_of_lines_nonempty lines)
]

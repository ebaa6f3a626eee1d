-- ===== src/Lifecycle/Releases.antt =====
-- `selectStaleReleases` and `keepReleases` of release.go: the release directories that are pruned.
use dewy.Common.{
  ℕ, Ordering, lt, eq, gt, Bool, true, false, Option, none, some, List, [], ◌∷◌, ◌++◌, map, ltb,
  leb, ◌==◌, if◌then◌else◌, length, drop, Text,
}
use Prim.Native.Nat.{compare}
use dewy.Order.Lexicographic.{lexicographic}

-- An entry of the directory, with its time where `Info` has no error.
pub record DirEntry : Type 0 where
  pub name : Text
  pub mod_time : Option ℕ

pub record StatEntry : Type 0 where
  pub name : Text
  pub mod_time : ℕ

unfoldable pub stat_entry : Text → Option ℕ → List StatEntry
stat_entry name none = []
stat_entry name (some t) = (record { name = name; mod_time = t }) ∷ []

-- The entries without an error.
unfoldable pub stat_entries : List DirEntry → List StatEntry
stat_entries [] = []
stat_entries (f ∷ files) = stat_entry f.name f.mod_time ++ stat_entries files

unfoldable pub is_lt : Ordering → Bool
is_lt lt = true
is_lt eq = false
is_lt gt = false

-- Newest first, and by name at equal times.
unfoldable pub comes_before : StatEntry → StatEntry → Bool
comes_before a b =
    if a.mod_time == b.mod_time
    then is_lt (lexicographic compare a.name b.name)
    else ltb b.mod_time a.mod_time

-- The place of an entry in a sorted list.
unfoldable pub insert_entry : StatEntry → List StatEntry → List StatEntry
insert_entry e [] = e ∷ []
insert_entry e (f ∷ rest) =
    let later = insert_entry e rest in if comes_before f e then f ∷ later else e ∷ f ∷ rest

-- `sort.Slice`, whose result is determined since the names of a directory differ.
unfoldable pub sort_entries : List StatEntry → List StatEntry
sort_entries [] = []
sort_entries (e ∷ rest) = insert_entry e (sort_entries rest)

unfoldable pub select_stale_releases : List DirEntry → ℕ → List Text
select_stale_releases files keep =
    let stat = sort_entries (stat_entries files) in
    if leb (length stat) keep then [] else map (λ (e : StatEntry). e.name) (drop keep stat)

-- The loop of `keepReleases` over the stale names, up to the first error: what is removed, and
-- whether there was no error.
unfoldable pub remove_all : (Text → Bool) → List Text → List Text × Bool
remove_all can_remove [] = ([], true)
remove_all can_remove (name ∷ names) =
    let (removed, all_removed) = remove_all can_remove names in
    if can_remove name then (name ∷ removed, all_removed) else ([], false)

-- `none` is the error of the directory's listing.
unfoldable pub keep_releases : (Text → Bool) → Option (List DirEntry) → List Text × Bool
keep_releases can_remove none = ([], false)
keep_releases can_remove (some files) = remove_all can_remove (select_stale_releases files 7)

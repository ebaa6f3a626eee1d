-- ===== src/Tests/Directories.antt =====
-- release.go on a concrete directory.
use dewy.Common.{◌-◌, ◌≡◌, none, some, List, [], ◌∷◌, map, length, take, drop, codes}
use dewy.Lifecycle.Releases.{DirEntry, StatEntry, stat_entries, sort_entries, select_stale_releases}
use dewy.Lifecycle.Pruning.{AreOlder, select_stale_releases-AreOlder}

abbrev files : List DirEntry
files =
    (record { name = codes "a"; mod_time = some 10 })
    ∷ (record { name = codes "b"; mod_time = none })
    ∷ (record { name = codes "c"; mod_time = some 30 })
    ∷ (record { name = codes "d"; mod_time = some 20 })
    ∷ []

select_stale_releases-AreOlder_example :
    (select_stale_releases files 1
      ≡ map (λ (e : StatEntry). e.name) (drop 1 (sort_entries (stat_entries files))))
    × (length (drop 1 (sort_entries (stat_entries files))) ≡ length (stat_entries files) - 1)
    × AreOlder
        (take 1 (sort_entries (stat_entries files)))
        (drop 1 (sort_entries (stat_entries files)))
select_stale_releases-AreOlder_example = select_stale_releases-AreOlder files 1

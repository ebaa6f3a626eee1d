-- ===== src/Lifecycle/Pruning.antt =====
-- Which release directories `selectStaleReleases` of release.go selects.
use dewy.Common.{
  ℕ, zero, suc, ◌-◌, ◌≤◌, ◌≡◌, refl, ◌⊎◌, inl, inr, true, false, List, [], ◌∷◌, map, arith, leb,
  Bool-cases, length, take, drop, length-drop, All, All-weaken,
}
use dewy.Lifecycle.Releases.{
  DirEntry, StatEntry, stat_entries, comes_before, insert_entry, sort_entries,
  select_stale_releases,
}

abbrev pub IsNewestFirst : List StatEntry → Type 0
IsNewestFirst [] = Unit {0}
IsNewestFirst (e ∷ rest) =
    All (λ (f : StatEntry). f.mod_time ≤ e.mod_time) rest × IsNewestFirst rest

comes_before-le :
    (a b : StatEntry)
    → ((comes_before a b ≡ true) × (b.mod_time ≤ a.mod_time))
      ⊎ ((comes_before a b ≡ false) × (a.mod_time ≤ b.mod_time))
unfolding comes_before
comes_before-le a b = elim (Bool-cases (comes_before a b)) [
  | inl y ↦ inl (y, ground arith)
  | inr n ↦ inr (n, ground arith)
]

insert_entry-All :
    (P : StatEntry → Type 0) (e : StatEntry) (xs : List StatEntry)
    → P e
    → All P xs
    → All P (insert_entry e xs)
unfolding insert_entry
insert_entry-All P e [] h k = (h, tt)
insert_entry-All P e (f ∷ rest) h k = elim (Bool-cases (comes_before f e)) [
  | inl y ↦ rw y (k.0, insert_entry-All P e rest h k.1)
  | inr n ↦ rw n (h, k)
]

insert_entry-IsNewestFirst :
    (e : StatEntry) (xs : List StatEntry) → IsNewestFirst xs → IsNewestFirst (insert_entry e xs)
unfolding insert_entry
insert_entry-IsNewestFirst e [] h = (tt, tt)
insert_entry-IsNewestFirst e (f ∷ rest) h = elim (comes_before-le f e) [
  | inl (y, le) ↦ rw y (insert_entry-All _ e rest le h.0, insert_entry-IsNewestFirst e rest h.1)
  | inr (n, le) ↦ rw n ((le, All-weaken _ _ rest (λ g k. omega arith) h.0), h)
]

insert_entry-length :
    (e : StatEntry) (xs : List StatEntry) → length (insert_entry e xs) ≡ suc (length xs)
unfolding insert_entry
insert_entry-length e [] = refl
insert_entry-length e (f ∷ rest) = elim (Bool-cases (comes_before f e)) [
  | inl y ↦ rw y (omega (arith, insert_entry-length e rest))
  | inr n ↦ rw n (omega arith)
]

sort_entries-IsNewestFirst : (xs : List StatEntry) → IsNewestFirst (sort_entries xs)
unfolding sort_entries
sort_entries-IsNewestFirst [] = tt
sort_entries-IsNewestFirst (e ∷ rest) =
    insert_entry-IsNewestFirst e (sort_entries rest) (sort_entries-IsNewestFirst rest)

sort_entries-length : (xs : List StatEntry) → length (sort_entries xs) ≡ length xs
unfolding sort_entries
sort_entries-length [] = refl
sort_entries-length (e ∷ rest) =
    omega (arith, insert_entry-length e (sort_entries rest), sort_entries-length rest)

-- No entry of the second list is newer than one of the first.
abbrev pub AreOlder : List StatEntry → List StatEntry → Type 0
AreOlder kept = All (λ (s : StatEntry). All (λ (k : StatEntry). s.mod_time ≤ k.mod_time) kept)

AreOlder-nil : (xs : List StatEntry) → AreOlder [] xs
AreOlder-nil [] = tt
AreOlder-nil (x ∷ xs) = (tt, AreOlder-nil xs)

All-drop : (P : StatEntry → Type 0) (n : ℕ) (xs : List StatEntry) → All P xs → All P (drop n xs)
All-drop P zero xs h = h
All-drop P (suc n) [] h = h
All-drop P (suc n) (x ∷ xs) h = All-drop P n xs h.1

AreOlder-cons :
    (x : StatEntry) (kept xs : List StatEntry)
    → All (λ (s : StatEntry). s.mod_time ≤ x.mod_time) xs
    → AreOlder kept xs
    → AreOlder (x ∷ kept) xs
AreOlder-cons x kept [] h k = tt
AreOlder-cons x kept (y ∷ ys) h k = ((h.0, k.0), AreOlder-cons x kept ys h.1 k.1)

drop-AreOlder : (n : ℕ) (xs : List StatEntry) → IsNewestFirst xs → AreOlder (take n xs) (drop n xs)
drop-AreOlder zero xs h = AreOlder-nil xs
drop-AreOlder (suc n) [] h = tt
drop-AreOlder (suc n) (x ∷ xs) h =
    AreOlder-cons x (take n xs) (drop n xs) (All-drop _ n xs h.0) (drop-AreOlder n xs h.1)

drop-nil : (n : ℕ) (xs : List StatEntry) → length xs ≤ n → drop n xs ≡ []
drop-nil zero [] h = refl
drop-nil zero (x ∷ xs) h = absurd (omega arith)
drop-nil (suc n) [] h = refl
drop-nil (suc n) (x ∷ xs) h = drop-nil n xs (omega arith)

-- The selected releases are those behind the first `keep` of the entries whose time is known, so
-- that there are exactly as many as are too many, and none of them is newer than one that is kept.
pub select_stale_releases-AreOlder :
    (files : List DirEntry) (keep : ℕ)
    → let sorted = sort_entries (stat_entries files) in
      (select_stale_releases files keep ≡ map (λ (e : StatEntry). e.name) (drop keep sorted))
      × (length (drop keep sorted) ≡ length (stat_entries files) - keep)
      × AreOlder (take keep sorted) (drop keep sorted)
unfolding select_stale_releases
select_stale_releases-AreOlder files keep =
    let sorted = sort_entries (stat_entries files) in
    (
      elim (Bool-cases (leb (length sorted) keep)) [
        | inl few ↦ rw (few, drop-nil keep sorted (ground arith)) refl
        | inr many ↦ rw many refl
      ],
      omega (arith, length-drop keep sorted, sort_entries-length (stat_entries files)),
      drop-AreOlder keep sorted (sort_entries-IsNewestFirst (stat_entries files)),
    )

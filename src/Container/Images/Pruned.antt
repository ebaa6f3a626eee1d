-- ===== src/Container/Images/Pruned.antt =====
-- Which images `CleanupOldImages` of container/image.go removes.
use dewy.Common.{◌≤◌, ◌≡◌, List, [], ◌∷◌, length, In, All}
use dewy.Container.Images.{ImageInfo}

-- The newest first.
abbrev pub IsNewestFirst : List ImageInfo → Type 0
IsNewestFirst [] = Unit {0}
IsNewestFirst (i ∷ is) = All (λ (j : ImageInfo). j.created ≤ i.created) is × IsNewestFirst is

-- What the code relies on in `sort.Slice`: the newest row comes first, and the rows are those that
-- are sorted.
pub record Sorts (sort_images : List ImageInfo → List ImageInfo) : Type 0 where
  pub newest_first : (is : List ImageInfo) → IsNewestFirst (sort_images is)
  pub keeps_length : (is : List ImageInfo) → length (sort_images is) ≡ length is
  pub only_those : (i : ImageInfo) (is : List ImageInfo) → In i (sort_images is) → In i is

-- No image of the second list is newer than one of the first.
abbrev pub AreOlder : List ImageInfo → List ImageInfo → Type 0
AreOlder kept old = All (λ (k : ImageInfo). All (λ (o : ImageInfo). o.created ≤ k.created) old) kept

-- ===== src/Tests/Sorted.antt =====
-- A sort of the rows of a listing of images, the newest first.
use dewy.Common.{
  ℕ, suc, ◌≤◌, ◌≡◌, refl, ap, ◌∙◌, inl, inr, List, [], ◌∷◌, arith, ltb, Bool-cases, length, All,
  All-weaken, In, if◌then◌else◌, ◌⊎◌,
}
use dewy.Container.Images.{ImageInfo}
use dewy.Container.Images.Pruned.{IsNewestFirst, Sorts}

unfoldable insert_image : ImageInfo → List ImageInfo → List ImageInfo
insert_image image [] = image ∷ []
insert_image image (i ∷ is) =
    let later = insert_image image is in
    if ltb image.created i.created then i ∷ later else image ∷ i ∷ is

unfoldable pub insertion_sort : List ImageInfo → List ImageInfo
unfolding insert_image
insertion_sort [] = []
insertion_sort (i ∷ is) = insert_image i (insertion_sort is)

insert_image-All :
    (t : ℕ) (image : ImageInfo) (is : List ImageInfo)
    → image.created ≤ t
    → All (λ (j : ImageInfo). j.created ≤ t) is
    → All (λ (j : ImageInfo). j.created ≤ t) (insert_image image is)
unfolding insert_image
insert_image-All t image [] h k = (h, tt)
insert_image-All t image (i ∷ is) h (k, ks) = elim (Bool-cases (ltb image.created i.created)) [
  | inl y ↦ rw (y, insert_image) (k, insert_image-All t image is h ks)
  | inr n ↦ rw (n, insert_image) (h, (k, ks))
]

insert_image-IsNewestFirst :
    (image : ImageInfo) (is : List ImageInfo)
    → IsNewestFirst is
    → IsNewestFirst (insert_image image is)
unfolding insert_image
insert_image-IsNewestFirst image [] h = (tt, tt)
insert_image-IsNewestFirst image (i ∷ is) (k, ks) =
    elim (Bool-cases (ltb image.created i.created)) [
      | inl y ↦
          rw (y, insert_image)
            (
              insert_image-All i.created image is (ground arith) k,
              insert_image-IsNewestFirst image is ks,
            )
      | inr n ↦
          let newer : i.created ≤ image.created = ground arith in
          rw (n, insert_image)
            (
              (
                newer,
                All-weaken (λ (j : ImageInfo). j.created ≤ i.created)
                    (λ (j : ImageInfo). j.created ≤ image.created) is
                    (λ j l. omega (arith, l, newer)) k,
              ),
              (k, ks),
            )
    ]

insert_image-length :
    (image : ImageInfo) (is : List ImageInfo) → length (insert_image image is) ≡ suc (length is)
unfolding insert_image
insert_image-length image [] = refl
insert_image-length image (i ∷ is) = ground (arith, insert_image-length image is)

insertion_sort-IsNewestFirst : (is : List ImageInfo) → IsNewestFirst (insertion_sort is)
unfolding insertion_sort
insertion_sort-IsNewestFirst [] = tt
insertion_sort-IsNewestFirst (i ∷ is) =
    insert_image-IsNewestFirst i (insertion_sort is) (insertion_sort-IsNewestFirst is)

insertion_sort-length : (is : List ImageInfo) → length (insertion_sort is) ≡ length is
unfolding insertion_sort
insertion_sort-length [] = refl
insertion_sort-length (i ∷ is) =
    insert_image-length i (insertion_sort is) ∙ ap suc (insertion_sort-length is)

insert_image-In :
    (i image : ImageInfo) (is : List ImageInfo)
    → In i (insert_image image is)
    → (i ≡ image) ⊎ In i is
unfolding insert_image
insert_image-In i image [] h = h
insert_image-In i image (j ∷ is) h = elim (Bool-cases (ltb image.created j.created)) [
  | inl y ↦ elim (rw (y, insert_image) at h) [
    | inl here ↦ inr (inl here)
    | inr late ↦ elim (insert_image-In i image is late) [
      | inl here ↦ inl here
      | inr there ↦ inr (inr there)
    ]
  ]
  | inr n ↦ rw (n, insert_image) at h
]

insertion_sort-In : (i : ImageInfo) (is : List ImageInfo) → In i (insertion_sort is) → In i is
unfolding insertion_sort
insertion_sort-In i [] h = h
insertion_sort-In i (j ∷ is) h = elim (insert_image-In i j (insertion_sort is) h) [
  | inl here ↦ inl here
  | inr there ↦ inr (insertion_sort-In i is there)
]

pub insertion_sort-Sorts : Sorts insertion_sort
insertion_sort-Sorts = record {
  newest_first = insertion_sort-IsNewestFirst;
  keeps_length = insertion_sort-length;
  only_those = insertion_sort-In;
}

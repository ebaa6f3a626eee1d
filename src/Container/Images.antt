-- ===== src/Container/Images.antt =====
-- container/image.go: the images of the container CLI, their listing, their pruning and their ports.
-- What `time.Parse` reads and what the CLI answers are parameters.
pub mod Names
pub mod Pulling
pub mod Attempts
pub mod Pruned
use dewy.Common.{
  ℕ, zero, suc, ◌+◌, ◌-◌, ◌*◌, ◌/◌, ◌%◌, ◌^◌, ◌≤◌, ◌<◌, Ordering, lt, eq, gt, ◌≡◌, refl, sym, ap,
  ◌∙◌, ◌≢◌, ◌↔◌, ◌⊎◌, inl, inr, Bool, true, false, not, ◌&&◌, ◌||◌, Option, none, some, List, [],
  ◌∷◌, ◌++◌, append_assoc, append-nil, map, arith, ltb, leb, ◌==◌, if◌then◌else◌, Bool-cases,
  Option-cases, &&-true, ltb→lt, lt→ltb, eq_of_==, ==-refl, length, get_elem?, take, drop,
  length-append, take-append-drop, length-drop, any_of, all_of, All, All-append, All-map,
  All-weaken, All-flat_map, In, In-append_left, In-append_right, In-append-cases, All-at, Text,
  codes, text_eq, has_prefix, has_suffix, trim_prefix, split_once, contains, to_lower, split,
  eq_of_text_eq, text_eq_refl, text_eq_iff, has_prefix-drop, has_prefix-append, ℤ, pos, negsuc,
  max_int, pos_part, neg_part, int_sub, sign, int_cmp, ◌>>=◌, ◌>>◌, Returns, Returns-some,
  Returns-bind, bind_of_some, some_of_bind,
}
use dewy.Common.Trim.{trim_space}
use dewy.Container.Images.Names.{image_repository_from_ref}
use dewy.Registry.Atoi.{atoi}

-- `ImageInfo`; a time that cannot be read is the zero time, 0.
pub record ImageInfo : Type 0 where
  pub id : Text
  pub repository : Text
  pub tag : Text
  pub created : ℕ

unfoldable pub created_of : Option ℕ → ℕ
created_of none = 0
created_of (some t) = t

-- The parts of a line, if there are five.
unfoldable pub image_of_parts : (Text → Option ℕ) → List Text → Option ImageInfo
image_of_parts parse_time (id ∷ repository ∷ tag ∷ created ∷ size ∷ []) = some (record {
  id = trim_space id;
  repository = trim_space repository;
  tag = trim_space tag;
  created = created_of (parse_time (trim_space created));
})
image_of_parts parse_time parts = none

-- The loop over the lines passes over an empty one, and over one of another format.
unfoldable pub images_of_lines : (Text → Option ℕ) → List Text → List ImageInfo
images_of_lines parse_time [] = []
images_of_lines parse_time (line ∷ lines) =
    let rest = images_of_lines parse_time lines in
    if text_eq (trim_space line) []
    then rest
    else elim (image_of_parts parse_time (split (trim_space line) b'|')) [
      | none ↦ rest
      | some image ↦ image ∷ rest
    ]

-- `ListImages` on the output of the CLI.
unfoldable pub list_images : (Text → Option ℕ) → Option Text → Option (List ImageInfo)
list_images parse_time none = none
list_images parse_time (some output) =
    if text_eq output [] then some [] else some (images_of_lines parse_time (split output b'\n'))

unfoldable pub ids_of : List ImageInfo → List Text
ids_of [] = []
ids_of (i ∷ is) = i.id ∷ ids_of is

-- `sort.Slice` is a parameter, since it leaves open how rows with the same time are ordered.
module _ (sort_images : List ImageInfo → List ImageInfo) where
  -- The IDs that the loop removes, with `--force` and passing over errors.
  unfoldable pub removed_ids : ℕ → List ImageInfo → List Text
  removed_ids keep_count images =
      if leb (length images) keep_count then [] else ids_of (drop keep_count (sort_images images))

  -- `CleanupOldImages`, for what the CLI prints of a repository.
  unfoldable pub cleanup_old_images :
      (Text → Option ℕ) → (Text → Option Text) → Text → ℕ → Option (List Text)
  cleanup_old_images parse_time print_images image_ref keep_count =
      elim (list_images parse_time (print_images (image_repository_from_ref image_ref))) [
        | none ↦ none
        | some images ↦ some (removed_ids keep_count images)
      ]

abbrev tcp : Text
tcp = codes "/tcp"

-- The loop over the exposed ports of an image.
unfoldable pub ports_of : List Text → List ℤ
ports_of [] = []
ports_of (spec ∷ specs) =
    let rest = ports_of specs in
    let (port, is_number) = atoi (take (length spec - length tcp) spec) in
    if has_suffix spec tcp && is_number then port ∷ rest else rest

unfoldable pub insert_port : ℤ → List ℤ → List ℤ
insert_port p [] = p ∷ []
insert_port p (q ∷ qs) =
    let later = insert_port p qs in
    elim (int_cmp q p) [ lt ↦ q ∷ later | eq ↦ p ∷ q ∷ qs | gt ↦ p ∷ q ∷ qs ]

-- `sort.Ints`
unfoldable pub sort_ports : List ℤ → List ℤ
sort_ports [] = []
sort_ports (p ∷ ps) = insert_port p (sort_ports ps)

-- `GetImageExposedPorts`, for the port specifications of each image that is inspected.
unfoldable pub get_image_exposed_ports : Option (List (List Text)) → Option (List ℤ)
get_image_exposed_ports none = none
get_image_exposed_ports (some []) = none
get_image_exposed_ports (some (specs ∷ images)) = some (sort_ports (ports_of specs))

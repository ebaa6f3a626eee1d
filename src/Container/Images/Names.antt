-- ===== src/Container/Images/Names.antt =====
-- The parts of an image reference: `imageRepositoryFromRef` of container/image.go, and `extractRegistry`
-- of container/credentials.go.
use mathlib.Core.Option.{some-injective}
use dewy.Common.{
  ℕ, zero, suc, ◌<◌, ◌≡◌, refl, ap, inl, inr, Bool, true, not, ◌||◌, Option, none, some, [], ◌∷◌,
  ◌++◌, arith, ltb, ◌==◌, if◌then◌else◌, Option-cases, &&-true, lt→ltb, length, take, all_of, Text,
  codes, text_eq, split_once, contains,
}

-- What stands before the first such byte, or all; `strings.Index` and the slice.
unfoldable pub before_byte : ℕ → Text → Text
before_byte c [] = []
before_byte c (d ∷ s) = let rest = before_byte c s in if d == c then [] else d ∷ rest

-- `strings.LastIndex` of one byte.
unfoldable pub last_index : ℕ → Text → Option ℕ
last_index c [] = none
last_index c (d ∷ s) = elim (last_index c s) [
  | none ↦ if d == c then some 0 else none
  | some i ↦ some (suc i)
]

-- The text less its tag, where the indices of the last slash and of the last colon are known.
unfoldable pub strip_tag : Text → Option ℕ → Option ℕ → Text
strip_tag ref none none = ref
strip_tag ref none (some colon) = take colon ref
strip_tag ref (some slash) none = ref
strip_tag ref (some slash) (some colon) = if ltb slash colon then take colon ref else ref

unfoldable pub image_repository_from_ref : Text → Text
image_repository_from_ref image_ref =
    let ref = before_byte b'@' image_ref in
    strip_tag ref (last_index b'/' ref) (last_index b':' ref)

abbrev docker_io : Text
docker_io = codes "docker.io"

-- Whether the first component of a reference is a registry.
unfoldable pub is_registry : Text → Bool
is_registry part =
    contains part (codes ".") || contains part (codes ":") || text_eq part (codes "localhost")

unfoldable pub registry_of : Option (Text × Text) → Text
registry_of none = docker_io
registry_of (some (first, rest)) = if is_registry first then first else docker_io

unfoldable pub extract_registry : Text → Text
extract_registry image_ref =
    let ref = before_byte b'@' image_ref in
    registry_of (split_once (codes "/") (strip_tag ref (last_index b'/' ref) (last_index b':' ref)))

-- That a text has no such byte.
abbrev pub lacks : ℕ → Text → Bool
lacks c s = all_of (λ d. not (d == c)) s

before_byte-lacks : (c : ℕ) (s : Text) → lacks c s ≡ true → before_byte c s ≡ s
unfolding before_byte
before_byte-lacks c [] h = refl
before_byte-lacks c (d ∷ s) h = ground (arith, before_byte-lacks c s)

before_byte-append : (c : ℕ) (s t : Text) → lacks c s ≡ true → before_byte c (s ++ c ∷ t) ≡ s
unfolding before_byte
before_byte-append c [] t h = ground arith
before_byte-append c (d ∷ s) t h = ground (arith, before_byte-append c s t)

last_index-lacks : (c : ℕ) (s : Text) → lacks c s ≡ true → last_index c s ≡ none
unfolding last_index
last_index-lacks c [] h = refl
last_index-lacks c (d ∷ s) h =
    let (here, rest) = &&-true (not (d == c)) (lacks c s) h in
    rw (last_index-lacks c s rest) (ground arith)

-- The last of the bytes stands where none follows.
last_index-append :
    (c : ℕ) (s t : Text) → lacks c t ≡ true → last_index c (s ++ c ∷ t) ≡ some (length s)
unfolding last_index
last_index-append c [] t h = rw (last_index-lacks c t h) (ground arith)
last_index-append c (d ∷ s) t h = rw (last_index-append c s t h) refl

-- Where the end of a text lacks the byte, the last one stands before that.
last_index-bound :
    (c : ℕ) (s t : Text)
    → lacks c t ≡ true
    → (i : ℕ) → last_index c (s ++ t) ≡ some i
    → i < length s
unfolding last_index
last_index-bound c [] t h i k = absurd (cc (last_index-lacks c t h))
last_index-bound c (d ∷ s) t h zero k = omega arith
last_index-bound c (d ∷ s) t h (suc i) k = elim (Option-cases (last_index c (s ++ t))) [
  | inl missing ↦
      let no : (if d == c then some 0 else none) ≡ some (suc i) = rw (missing, last_index) at k in
      absurd (ground arith)
  | inr (j, e) ↦
      let same : some (suc j) ≡ some (suc i) = rw (e, last_index) at k in
      let bound = last_index-bound c s t h j e in omega (arith, some-injective (suc j) (suc i) same)
]

take-append : (s t : Text) → take (length s) (s ++ t) ≡ s
take-append [] t = refl
take-append (d ∷ s) t = ap (λ r. d ∷ r) (take-append s t)

lacks-append : (c : ℕ) (s t : Text) → lacks c s ≡ true → lacks c t ≡ true → lacks c (s ++ t) ≡ true
lacks-append c [] t h k = k
lacks-append c (d ∷ s) t h k = ground (arith, lacks-append c s t)

-- A tag is stripped that has no slash and no colon, whatever colons and slashes are before it.
strip_tag-append :
    (repository tag : Text)
    → lacks b'/' tag ≡ true
    → lacks b':' tag ≡ true
    → strip_tag
        (repository ++ b':' ∷ tag)
        (last_index b'/' (repository ++ b':' ∷ tag))
        (last_index b':' (repository ++ b':' ∷ tag))
      ≡ repository
unfolding strip_tag
strip_tag-append repository tag h k =
    let no_slash : lacks b'/' (b':' ∷ tag) ≡ true = h in
    let colon = last_index-append b':' repository tag k in
    elim (Option-cases (last_index b'/' (repository ++ b':' ∷ tag))) [
      | inl none_yet ↦ rw (none_yet, colon, strip_tag) (take-append repository (b':' ∷ tag))
      | inr (i, slash) ↦
          let earlier = last_index-bound b'/' repository (b':' ∷ tag) no_slash i slash in
          let later : ltb i (length repository) ≡ true = lt→ltb i (length repository) earlier in
          rw (slash, colon, strip_tag, later) (take-append repository (b':' ∷ tag))
    ]

-- An image reference less its tag and its digest: the repository, which may have the port of its
-- registry in it, is found again where it has no `@` and the tag has neither `@` nor `/` nor `:`.
pub image_repository_from_ref-tag :
    (repository tag digest : Text)
    → lacks b'@' repository ≡ true
    → lacks b'@' tag ≡ true
    → lacks b'/' tag ≡ true
    → lacks b':' tag ≡ true
    → (image_repository_from_ref (repository ++ b':' ∷ tag) ≡ repository)
      × (image_repository_from_ref ((repository ++ b':' ∷ tag) ++ b'@' ∷ digest) ≡ repository)
unfolding image_repository_from_ref
image_repository_from_ref-tag repository tag digest h i j k =
    let ref = repository ++ b':' ∷ tag in
    let whole = lacks-append b'@' repository (b':' ∷ tag) h i in
    (
      rw (before_byte-lacks b'@' ref whole) (strip_tag-append repository tag j k),
      rw (before_byte-append b'@' ref digest whole) (strip_tag-append repository tag j k),
    )

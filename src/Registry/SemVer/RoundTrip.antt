-- ===== src/Registry/SemVer/RoundTrip.antt =====
-- Parsing what `(*SemVer).String` prints, and the range of what is parsed.
use mathlib.Core.Option.{some-injective}
use mathlib.Core.Path.{subst}
use dewy.Common.{
  Option-cases, inl, inr, ℕ, ◌≤◌, some, [], ◌∷◌, Text, max_int, ◌≡◌, ◌≢◌, ◌⊎◌, refl, bind_of_some,
  ◌>>=◌,
}
use dewy.Registry.Atoi.{atoi-le-max_int}
use dewy.Registry.Pattern.{IdentifierBytes}
use dewy.Registry.Print.{format_int, Digits-format_int, format_int-cons, atoi-format_int}
use dewy.Registry.SemVer.{SemVer, Groups, find_groups, number_of, sem_ver_of, parse_sem_ver, string}
use dewy.Registry.SemVer.Grammar.{spell, IsWellFormed, find_groups-spell}

-- A version that a text can stand for.
pub record IsValid (v : SemVer) : Type 0 where
  pub v_form : (v.v ≡ []) ⊎ (v.v ≡ b'v' ∷ [])
  pub major_fits : v.major ≤ max_int
  pub minor_fits : v.minor ≤ max_int
  pub patch_fits : v.patch ≤ max_int
  pub pre_release_bytes : IdentifierBytes v.pre_release
  pub build_metadata_bytes : IdentifierBytes v.build_metadata

printed : SemVer → Groups
printed v = record {
  v = v.v;
  major = format_int v.major;
  minor = format_int v.minor;
  patch = format_int v.patch;
  pre_release = v.pre_release;
  build_metadata = v.build_metadata;
}

format_int-ne-nil : (n : ℕ) → format_int n ≢ []
format_int-ne-nil n e = let (c, s, h) = format_int-cons n in cc h

printed-IsWellFormed : (v : SemVer) → IsValid v → IsWellFormed (printed v)
unfolding printed
printed-IsWellFormed v h = record {
  v = h.v_form;
  major_digits = Digits-format_int v.major;
  major_some = format_int-ne-nil v.major;
  minor_digits = Digits-format_int v.minor;
  minor_some = format_int-ne-nil v.minor;
  patch_digits = Digits-format_int v.patch;
  patch_some = format_int-ne-nil v.patch;
  pre_release_bytes = h.pre_release_bytes;
  build_metadata_bytes = h.build_metadata_bytes;
}

string-spell : (v : SemVer) → string v ≡ spell (printed v)
unfolding string spell printed
string-spell v = refl

number_of-format_int : (n : ℕ) → n ≤ max_int → number_of (format_int n) ≡ n
unfolding number_of
number_of-format_int n h = rw (atoi-format_int n h)

sem_ver_of-printed : (v : SemVer) → IsValid v → sem_ver_of (printed v) ≡ v
unfolding sem_ver_of printed
sem_ver_of-printed v h = rw (
  number_of-format_int v.major h.major_fits,
  number_of-format_int v.minor h.minor_fits,
  number_of-format_int v.patch h.patch_fits,
)

-- A valid version is parsed back from what `String` prints.
pub parse_sem_ver-string : (v : SemVer) → IsValid v → parse_sem_ver (string v) ≡ some v
unfolding parse_sem_ver
parse_sem_ver-string v h = rw (
  string-spell v,
  bind_of_some _ (λ m. some (sem_ver_of m)) _
      (find_groups-spell (printed v) (printed-IsWellFormed v h)),
  sem_ver_of-printed v h,
)

-- The numbers of a version are in the range of `int`.
pub record InRange (v : SemVer) : Type 0 where
  pub major_fits : v.major ≤ max_int
  pub minor_fits : v.minor ≤ max_int
  pub patch_fits : v.patch ≤ max_int

sem_ver_of-InRange : (m : Groups) → InRange (sem_ver_of m)
unfolding sem_ver_of number_of
sem_ver_of-InRange m = record {
  major_fits = atoi-le-max_int m.major;
  minor_fits = atoi-le-max_int m.minor;
  patch_fits = atoi-le-max_int m.patch;
}

-- The numbers of a parsed version are in the range of `int`, however many digits the text has.
pub parse_sem_ver-InRange : (s : Text) (v : SemVer) → parse_sem_ver s ≡ some v → InRange v
unfolding parse_sem_ver ◌>>=◌
parse_sem_ver-InRange s v h = elim (Option-cases (find_groups s)) [
  | inl e ↦ absurd (cc (rw e at h))
  | inr (m, e) ↦ subst InRange (some-injective _ _ (rw e at h)) (sem_ver_of-InRange m)
]

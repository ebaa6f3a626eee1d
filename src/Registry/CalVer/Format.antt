-- ===== src/Registry/CalVer/Format.antt =====
-- registry/calver.go: the specifiers of a format, the patterns that they stand for, and the parts
-- of a format.
use mathlib.Core.Option
use mathlib.Core.List.{flat_map}
use dewy.Common.{
  ℕ, zero, suc, ◌+◌, ◌/◌, ◌%◌, Bool, ◌&&◌, Option, none, some, List, [], ◌∷◌, ◌++◌, map, Text,
  codes, leb, ltb, if◌then◌else◌, has_prefix, length, drop,
}
use dewy.Registry.Atoi.{is_digit}

pub data Specifier : Type 0 where
  yyyy y0 yy m0 mm w0 ww d0 dd micro : Specifier

abbrev pub specifier_text : Specifier → Text
specifier_text yyyy = codes "YYYY"
specifier_text y0 = codes "0Y"
specifier_text yy = codes "YY"
specifier_text m0 = codes "0M"
specifier_text mm = codes "MM"
specifier_text w0 = codes "0W"
specifier_text ww = codes "WW"
specifier_text d0 = codes "0D"
specifier_text dd = codes "DD"
specifier_text micro = codes "MICRO"

-- A pattern finds every start of a text that it matches, with the rest, in the order in which the
-- search of package `regexp` prefers them.
abbrev pub Pattern : Type 0
Pattern = Text → List (Text × Text)

-- One byte of a class.
unfoldable pub byte : (ℕ → Bool) → Pattern
byte p [] = []
byte p (c ∷ s) = if p c then (c ∷ [], s) ∷ [] else []

-- xy
unfoldable pub seq : Pattern → Pattern → Pattern
seq x y s = flat_map (λ a. map (λ b. (a.0 ++ b.0, b.1)) (y a.1)) (x s)

-- x|y
unfoldable pub alt : Pattern → Pattern → Pattern
alt x y s = x s ++ y s

-- x?
unfoldable pub optional : Pattern → Pattern
optional x = alt x (λ s. ([], s) ∷ [])

-- The runs of digits at the start of a text, the longest first.
unfoldable pub digit_runs : Pattern
digit_runs [] = []
digit_runs (c ∷ s) =
    let longer = map (λ (a : Text × Text). (c ∷ a.0, a.1)) (digit_runs s) in
    if is_digit c then longer ++ (c ∷ [], s) ∷ [] else []

abbrev pub digit : Pattern
digit = byte is_digit

abbrev pub between : ℕ → ℕ → Pattern
between lo hi = byte (λ c. leb lo c && leb c hi)

-- calverSpecifiers
unfoldable pub specifier_pattern : Specifier → Pattern
specifier_pattern yyyy = seq digit (seq digit (seq digit digit))
specifier_pattern yy = seq digit (optional (seq digit (optional digit)))
specifier_pattern y0 = seq digit (seq digit (optional digit))
specifier_pattern mm = alt (between b'1' b'9') (seq (between b'1' b'1') (between b'0' b'2'))
specifier_pattern m0 =
    alt (seq (between b'0' b'0') (between b'1' b'9')) (seq (between b'1' b'1') (between b'0' b'2'))
specifier_pattern ww =
    alt (between b'1' b'9')
      (alt (seq (between b'1' b'4') digit) (seq (between b'5' b'5') (between b'0' b'3')))
specifier_pattern w0 =
    alt (seq (between b'0' b'0') (between b'1' b'9'))
      (alt (seq (between b'1' b'4') digit) (seq (between b'5' b'5') (between b'0' b'3')))
specifier_pattern dd =
    alt (between b'1' b'9')
      (alt (seq (between b'1' b'2') digit) (seq (between b'3' b'3') (between b'0' b'1')))
specifier_pattern d0 =
    alt (seq (between b'0' b'0') (between b'1' b'9'))
      (alt (seq (between b'1' b'2') digit) (seq (between b'3' b'3') (between b'0' b'1')))
specifier_pattern micro = digit_runs

-- calverSpecifierOrder
abbrev pub specifier_order : List Specifier
specifier_order = yyyy ∷ y0 ∷ yy ∷ m0 ∷ mm ∷ w0 ∷ ww ∷ d0 ∷ dd ∷ micro ∷ []

-- A part of a format: a specifier, or a byte that stands for itself.
pub data Part : Type 0 where
  specifier : Specifier → Part
  literal : ℕ → Part

-- The first specifier of the list with which the text begins.
unfoldable pub find_specifier : List Specifier → Text → Option Specifier
find_specifier [] remaining = none
find_specifier (spec ∷ specs) remaining =
    if has_prefix remaining (specifier_text spec) then some spec else find_specifier specs remaining

-- `for remaining != ""`: each round takes a specifier or a byte off the format. The first number
-- bounds the rounds; `none` means that it is used up.
unfoldable pub format_parts : ℕ → Text → Option (List Part)
format_parts fuel [] = some []
format_parts zero (c ∷ s) = none
format_parts (suc fuel) (c ∷ s) = elim (find_specifier specifier_order (c ∷ s)) [
  | none ↦ Option.map (λ parts. literal c ∷ parts) (format_parts fuel s)
  | some spec ↦
      Option.map (λ parts. specifier spec ∷ parts)
        (format_parts fuel (drop (length (specifier_text spec)) (c ∷ s)))
]

-- `string(remaining[0])` is the UTF-8 encoding of the code point with the byte's number.
unfoldable pub literal_text : ℕ → Text
literal_text c = if ltb c 128 then c ∷ [] else (192 + c / 64) ∷ (128 + c % 64) ∷ []

unfoldable pub specifiers_of : List Part → List Specifier
specifiers_of [] = []
specifiers_of (specifier spec ∷ parts) = spec ∷ specifiers_of parts
specifiers_of (literal c ∷ parts) = specifiers_of parts

pub record CalVerFormat : Type 0 where
  pub format : Text
  -- What `Regex` is built from.
  pub parts : List Part
  pub segments : List Specifier

abbrev with_segments : Text → List Part → Option CalVerFormat
with_segments format parts = elim (specifiers_of parts) [
  | [] ↦ none
  | spec ∷ specs ↦ some (record { format = format; parts = parts; segments = specifiers_of parts })
]

-- `none` is an error: the format is empty, or it holds no specifier. The pattern always compiles:
-- it is made of the patterns above and of quoted bytes.
unfoldable pub new_cal_ver_format : Text → Option CalVerFormat
new_cal_ver_format [] = none
new_cal_ver_format (c ∷ s) = elim (format_parts (length (c ∷ s)) (c ∷ s)) [
  | none ↦ none
  | some parts ↦ with_segments (c ∷ s) parts
]

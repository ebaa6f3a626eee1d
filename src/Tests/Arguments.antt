-- ===== src/Tests/Arguments.antt =====
-- container/runtime.go on concrete arguments.
use dewy.Common.{◌≡◌, refl, true, false, List, [], ◌∷◌, All, Text, codes, text_eq, has_prefix}
use dewy.Container.Runtime.{
  is_option, is_some_byte, match_forbidden_short_flag, is_reserved, extract_label_value,
  validate_extra_args, extract_name_option, is_refused,
}
use dewy.Container.Runtime.Filtered.{IsAllowed, filtered-IsAllowed, reserved_label-passes}

abbrev memory_args : List Text
memory_args = codes "--memory" ∷ codes "512m" ∷ codes "--name=web" ∷ []

memory_args-valid : validate_extra_args memory_args ≡ true
unfolding validate_extra_args is_refused is_option text_eq has_prefix is_some_byte
    match_forbidden_short_flag is_reserved extract_label_value
memory_args-valid = refl

filtered-IsAllowed_example : All IsAllowed (extract_name_option memory_args).1
filtered-IsAllowed_example = filtered-IsAllowed memory_args memory_args-valid

abbrev managed_label : Text
managed_label = codes "dewy.managed=false"

web_args-valid : validate_extra_args (codes "web" ∷ managed_label ∷ []) ≡ true
unfolding validate_extra_args is_refused is_option text_eq has_prefix is_some_byte
    match_forbidden_short_flag is_reserved extract_label_value
web_args-valid = refl

managed_label-reserved : has_prefix managed_label (codes "dewy.") ≡ true
unfolding has_prefix
managed_label-reserved = refl

reserved_label-passes_example :
    (validate_extra_args (codes "--label" ∷ codes "--name" ∷ codes "web" ∷ managed_label ∷ [])
      ≡ true)
    × ((extract_name_option (codes "--label" ∷ codes "--name" ∷ codes "web" ∷ managed_label ∷ [])).1
        ≡ codes "--label" ∷ managed_label ∷ [])
    × (validate_extra_args (codes "--label" ∷ managed_label ∷ []) ≡ false)
reserved_label-passes_example =
    reserved_label-passes (codes "web") managed_label web_args-valid managed_label-reserved

-- ===== src/Container/Runtime.antt =====
-- container/runtime.go: the extra arguments of the user, and the command that starts a container.
pub mod Filtered
use dewy.Registry.Print.{format_int}
use dewy.Common.{
  ℕ, zero, suc, ◌+◌, ◌-◌, ◌*◌, ◌/◌, ◌%◌, ◌^◌, ◌≤◌, ◌<◌, Ordering, lt, eq, gt, ◌≡◌, refl, sym, ap,
  ◌∙◌, ◌≢◌, ◌↔◌, ◌⊎◌, inl, inr, Bool, true, false, not, ◌&&◌, ◌||◌, Option, none, some, List, [],
  ◌∷◌, ◌++◌, append_assoc, append-nil, map, arith, ltb, leb, ◌==◌, if◌then◌else◌, Bool-cases,
  Option-cases, &&-true, ltb→lt, lt→ltb, eq_of_==, ==-refl, length, get_elem?, take, drop,
  length-append, take-append-drop, length-drop, any_of, all_of, All, All-append, All-map,
  All-weaken, All-flat_map, In, In-append_left, In-append_right, In-append-cases, All-at, Text,
  codes, text_eq, has_prefix, has_suffix, contains, to_lower, split, eq_of_text_eq, text_eq_refl,
  text_eq_iff, has_prefix-drop, has_prefix-append, ℤ, pos, negsuc, max_int, pos_part, neg_part,
  int_sub, sign, int_cmp, ◌>>=◌, ◌>>◌, Returns, Returns-some, Returns-bind, bind_of_some,
}

abbrev pub forbidden_long_options : List Text
forbidden_long_options =
    codes "--detach"
    ∷ codes "--interactive"
    ∷ codes "--tty"
    ∷ codes "--publish"
    ∷ codes "--label-file"
    ∷ codes "--privileged"
    ∷ codes "--pid"
    ∷ codes "--cap-add"
    ∷ codes "--security-opt"
    ∷ codes "--device"
    ∷ codes "--userns"
    ∷ codes "--cgroupns"
    ∷ []

abbrev pub forbidden_short_flag_chars : List ℕ
forbidden_short_flag_chars = b'd' ∷ b'i' ∷ b't' ∷ b'p' ∷ []

abbrev pub reserved_label_prefix : Text
reserved_label_prefix = codes "dewy."

-- `len(arg) > 2 && arg[2] != '-'`
unfoldable pub has_value : Text → Bool
has_value (a ∷ b ∷ c ∷ s) = not (c == b'-')
has_value (a ∷ b ∷ []) = false
has_value (a ∷ []) = false
has_value [] = false

-- `extractLabelValue` of an argument and those after it.
unfoldable pub extract_label_value : Text → List Text → Option Text
extract_label_value arg rest =
    if text_eq arg (codes "--label") || text_eq arg (codes "-l")
    then get_elem? rest 0
    else if has_prefix arg (codes "--label=")
    then some (drop 8 arg)
    else if has_prefix arg (codes "-l=")
    then some (drop 3 arg)
    else if has_prefix arg (codes "-l") && has_value arg
    then some (drop 2 arg)
    else none

unfoldable pub match_forbidden_short_flag : Text → Option ℕ
match_forbidden_short_flag (dash ∷ c ∷ s) =
    if not (dash == b'-') || c == b'-'
    then none
    else if any_of (λ d. c == d) forbidden_short_flag_chars
    then some c
    else none
match_forbidden_short_flag (dash ∷ []) = none
match_forbidden_short_flag [] = none

-- An argument is an option, alone or with its value behind `=`.
unfoldable pub is_option : Text → Text → Bool
is_option arg forbidden = text_eq arg forbidden || has_prefix arg (forbidden ++ b'=' ∷ [])

unfoldable pub is_reserved : Option Text → Bool
is_reserved none = false
is_reserved (some value) = has_prefix value reserved_label_prefix

unfoldable pub is_some_byte : Option ℕ → Bool
is_some_byte none = false
is_some_byte (some c) = true

-- The body of the loop of `validateExtraArgs`: whether it returns an error.
unfoldable pub is_refused : Text → List Text → Bool
is_refused arg rest =
    any_of (is_option arg) forbidden_long_options
    || is_some_byte (match_forbidden_short_flag arg)
    || is_reserved (extract_label_value arg rest)

-- Whether there is no error.
unfoldable pub validate_extra_args : List Text → Bool
validate_extra_args [] = true
validate_extra_args (arg ∷ rest) =
    let valid = validate_extra_args rest in if is_refused arg rest then false else valid

-- `len(arg) > 2 && arg[0] == '-' && arg[1] == 'u' && arg[2] != '-'`
unfoldable pub is_combined_user : Text → Bool
is_combined_user (a ∷ b ∷ c ∷ s) = a == b'-' && b == b'u' && not (c == b'-')
is_combined_user (a ∷ b ∷ []) = false
is_combined_user (a ∷ []) = false
is_combined_user [] = false

unfoldable pub is_user_option : Text → Bool
is_user_option arg =
    text_eq arg (codes "--user")
    || has_prefix arg (codes "--user=")
    || text_eq arg (codes "-u")
    || has_prefix arg (codes "-u=")
    || is_combined_user arg

unfoldable pub has_user_option : List Text → Bool
has_user_option args = any_of is_user_option args

-- The loop of `extractNameOption`, with the name so far: the name, and the other arguments.
unfoldable pub extract_name_from : List Text → Text → Text × List Text
extract_name_from [] name = (name, [])
extract_name_from (arg ∷ []) name =
    if has_prefix arg (codes "--name=") then (drop 7 arg, []) else (name, arg ∷ [])
extract_name_from (arg ∷ next ∷ rest) name =
    let skipped = extract_name_from rest next in
    let named = extract_name_from (next ∷ rest) (drop 7 arg) in
    let (last, filtered) = extract_name_from (next ∷ rest) name in
    if text_eq arg (codes "--name")
    then skipped
    else if has_prefix arg (codes "--name=")
    then named
    else (last, arg ∷ filtered)

unfoldable pub extract_name_option : List Text → Text × List Text
extract_name_option args = extract_name_from args []

pub record RunOptions : Type 0 where
  pub image : Text
  pub app_name : Text
  pub replica_index : ℕ
  -- In the order of Go's iteration over the map.
  pub labels : List (Text × Text)
  pub ports : List Text
  pub detach : Bool
  pub command : List Text
  pub extra_args : List Text

unfoldable pub label_args : List (Text × Text) → List Text
label_args [] = []
label_args ((key, value) ∷ labels) = codes "--label" ∷ (key ++ b'=' ∷ value) ∷ label_args labels

unfoldable pub port_args : List Text → List Text
port_args [] = []
port_args (port ∷ ports) = codes "-p" ∷ port ∷ port_args ports

-- The user's name for the container, if there is one, with the time and the replica.
unfoldable pub container_name : Text → Text → ℕ → ℕ → Text
container_name user_name app_name timestamp replica_index =
    let suffix = b'-' ∷ format_int timestamp ++ b'-' ∷ format_int replica_index in
    if text_eq user_name [] then app_name ++ suffix else user_name ++ suffix

-- The arguments that `Run` gives to the CLI, with the time, the user and the group of the process;
-- `none` where the extra arguments are refused.
unfoldable pub run_args : ℕ → ℕ → ℕ → RunOptions → Option (List Text)
run_args timestamp uid gid opts =
    let (user_name, filtered_args) = extract_name_option opts.extra_args in
    let detach_args = if opts.detach then codes "-d" ∷ [] else [] in
    let user_args =
      if has_user_option filtered_args
      then []
      else codes "--user" ∷ (format_int uid ++ b':' ∷ format_int gid) ∷ [] in
    if validate_extra_args opts.extra_args
    then some (
        codes "run" ∷ detach_args
        ++ (codes "--name"
              ∷ container_name user_name opts.app_name timestamp opts.replica_index
              ∷ label_args opts.labels
            ++ (port_args opts.ports
                ++ (filtered_args ++ (user_args ++ opts.image ∷ opts.command)))))
    else none

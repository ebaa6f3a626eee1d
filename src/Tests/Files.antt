-- ===== src/Tests/Files.antt =====
-- A cache in a directory of two files, and what its keys may be.
use dewy.Common.{◌≡◌, refl, true, false, none, some, List, [], ◌∷◌, Text, codes}
use dewy.Cache.Paths.{is_rooted, validate_key_path}
use dewy.Cache.File.{
  System, File, read_call, write_call, delete_call, list_call, Call, call, read, delete, at_key,
  is_file_exist, content, calls,
}
use dewy.Cache.File.Access.{Accesses, calls-Accesses}

-- A key with .. that stays below the directory is accepted, and one that leaves it is not.
stays :
    validate_key_path (codes "/var/cache") (codes "a/../current")
    ≡ some (codes "/var/cache/current")
unfolding validate_key_path
stays = refl

leaves : validate_key_path (codes "/var/cache") (codes "../cache2/current") ≡ none
unfolding validate_key_path
leaves = refl

-- A directory whose path is .. lets keys leave it.
leaves_relative : validate_key_path (codes "..") (codes "../current") ≡ some (codes "../../current")
unfolding validate_key_path
leaves_relative = refl

-- The last path that a file was opened, written or removed by.
abbrev disk : System Text
disk = record {
  is_not_exist = λ p s. false;
  stat = λ p s. some (record { is_dir = true; size = 4096 });
  read_file = λ p s. (some (codes "bytes"), p);
  open_truncated = λ p s. (true, p);
  write = λ p bytes s. (true, p);
  remove = λ p s. (true, p);
  read_dir = λ p s. some (codes "current" ∷ []);
}

abbrev cache_file : File
cache_file = record { dir = codes "/var/cache"; max_size = 67108864 }

abbrev four_calls : List Call
four_calls =
    write_call (codes "current") (codes "v1")
    ∷ read_call (codes "current")
    ∷ delete_call (codes "../../etc/passwd")
    ∷ list_call
    ∷ []

last_path : calls disk cache_file four_calls [] ≡ codes "/var/cache/current"
unfolding calls call delete at_key validate_key_path read is_file_exist content
last_path = refl

calls-Accesses_example : Accesses disk (codes "/var/cache") [] (calls disk cache_file four_calls [])
unfolding is_rooted
calls-Accesses_example = calls-Accesses disk cache_file four_calls [] refl

-- In the working directory or at the root, no key is accepted.
nothing_here : validate_key_path (codes ".") (codes "current") ≡ none
unfolding validate_key_path
nothing_here = refl

nothing_at_root : validate_key_path (codes "/") (codes "current") ≡ none
unfolding validate_key_path
nothing_at_root = refl

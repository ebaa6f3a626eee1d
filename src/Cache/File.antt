-- ===== src/Cache/File.antt =====
-- The cache in a directory, cache/file.go. The operating system is a record of functions on a state.
pub mod Access
use dewy.Common.{
  ℕ, Bool, true, false, not, Option, none, some, List, [], ◌∷◌, if◌then◌else◌, ltb, Text, codes,
}
use dewy.Cache.Paths.{validate_key_path}

-- What os.Stat tells of a directory.
pub record Stat : Type 0 where
  pub is_dir : Bool
  pub size : ℕ

-- An operation that may fail gives whether it did well, and what the state is then.
pub record System (S : Type 0) : Type 0 where
  pub is_not_exist : Text → S → Bool
  pub stat : Text → S → Option Stat
  pub read_file : Text → S → Option Text × S
  pub open_truncated : Text → S → Bool × S
  pub write : Text → Text → S → Bool × S
  pub remove : Text → S → Bool × S
  pub read_dir : Text → S → Option (List Text)

pub record File : Type 0 where
  pub dir : Text
  pub max_size : ℕ

pub data Error : Type 0 where
  illegal_key : Error
  not_found : Error
  not_dir : Error
  max_size_reached : Error
  system_error : Error

pub data Result (A : Type 0) : Type 0 where
  ok : A → Result A
  err : Error → Result A

pub data Call : Type 0 where
  read_call : Text → Call
  write_call : Text → Text → Call
  delete_call : Text → Call
  list_call : Call

module _ {S : Type 0} (system : System S) (f : File) where
  unfoldable pub is_file_exist : Text → S → Bool
  is_file_exist p s = not (system.is_not_exist p s)

  unfoldable pub content : Option Text × S → Result Text × S
  content (none, s) = (err system_error, s)
  content (some bytes, s) = (ok bytes, s)

  -- An operation on the path of a key, which has to be one in the directory.
  unfoldable pub at_key : {A : Type 0} → Option Text → (Text → Result A × S) → S → Result A × S
  at_key none act s = (err illegal_key, s)
  at_key (some p) act s = act p

  unfoldable pub read : Text → S → Result Text × S
  read key s =
      at_key (validate_key_path f.dir key)
        (λ p. if is_file_exist p s then content (system.read_file p s) else (err not_found, s)) s

  unfoldable pub finished : Bool × S → Result (Unit {0}) × S
  finished (true, s) = (ok tt, s)
  finished (false, s) = (err system_error, s)

  unfoldable pub written : Text → Text → Bool × S → Result (Unit {0}) × S
  written p bytes (false, s) = (err system_error, s)
  written p bytes (true, s) = finished (system.write p bytes s)

  unfoldable pub write_in : Option Stat → Text → Text → S → Result (Unit {0}) × S
  write_in none key bytes s = (err system_error, s)
  write_in (some dirstat) key bytes s =
      if not dirstat.is_dir
      then (err not_dir, s)
      else (if ltb f.max_size dirstat.size
          then (err max_size_reached, s)
          else at_key (validate_key_path f.dir key)
              (λ p. written p bytes (system.open_truncated p s)) s)

  unfoldable pub write : Text → Text → S → Result (Unit {0}) × S
  write key bytes s = write_in (system.stat f.dir s) key bytes s

  unfoldable pub delete : Text → S → Result (Unit {0}) × S
  delete key s =
      at_key (validate_key_path f.dir key)
        (λ p. if is_file_exist p s then finished (system.remove p s) else (err not_found, s)) s

  unfoldable pub listed : Option (List Text) → Result (List Text)
  listed none = err system_error
  listed (some names) = ok names

  unfoldable pub list : S → Result (List Text)
  list s = listed (system.read_dir f.dir s)

  -- What a call leaves of the state, whatever it returns.
  unfoldable pub call : Call → S → S
  call (read_call key) s = (read key s).1
  call (write_call key bytes) s = (write key bytes s).1
  call (delete_call key) s = (delete key s).1
  call list_call s = s

  unfoldable pub calls : List Call → S → S
  calls [] s = s
  calls (c ∷ cs) s = calls cs (call c s)

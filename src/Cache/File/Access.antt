-- ===== src/Cache/File/Access.antt =====
-- What files the cache of cache/file.go reads, writes and removes.
use dewy.Common.{
  ◌≡◌, refl, inl, inr, Bool, true, false, not, Option, none, some, List, [], ◌∷◌, if◌then◌else◌,
  ltb, Option-cases, Text,
}
use dewy.Cache.Paths.{is_rooted, validate_key_path}
use dewy.Cache.Paths.Inside.{IsInside, validate_key_path-IsInside}
use dewy.Cache.File.{
  Stat, System, File, Result, is_file_exist, content, at_key, read, finished, written, write_in,
  write, delete, Call, read_call, write_call, delete_call, list_call, call, calls,
}

module _ {S : Type 0} (system : System S) (base : Text) where
  -- The system is asked to read, open, write and remove files in the directory, and no others.
  pub data Accesses : S → S → Type 0 where
    none_of_all : (s : S) → Accesses s s
    reads :
        (p : Text) (s t : S) → IsInside base p → Accesses s t → Accesses s (system.read_file p t).1
    opens :
        (p : Text) (s t : S)
        → IsInside base p
        → Accesses s t
        → Accesses s (system.open_truncated p t).1
    writes :
        (p bytes : Text) (s t : S)
        → IsInside base p
        → Accesses s t
        → Accesses s (system.write p bytes t).1
    removes :
        (p : Text) (s t : S) → IsInside base p → Accesses s t → Accesses s (system.remove p t).1

module _ {S : Type 0} (system : System S) (f : File) (rooted : is_rooted f.dir ≡ true)
    (s0 : S) where
  abbrev Reaches : S → Type 0
  Reaches s = Accesses system f.dir s0 s

  content-state : (r : Option Text × S) → (content system f r).1 ≡ r.1
  unfolding content
  content-state (none, s) = refl
  content-state (some bytes, s) = refl

  finished-state : (r : Bool × S) → (finished system f r).1 ≡ r.1
  unfolding finished
  finished-state (true, s) = refl
  finished-state (false, s) = refl

  at_key-Reaches :
      {A : Type 0} (key : Text) (act : Text → Result A × S) (s : S)
      → Reaches s
      → ((p : Text) → IsInside f.dir p → Reaches (act p).1)
      → Reaches (at_key system f (validate_key_path f.dir key) act s).1
  unfolding at_key
  at_key-Reaches key act s h k = elim (Option-cases (validate_key_path f.dir key)) [
    | inl failed ↦ rw failed h
    | inr (p, found) ↦ rw found (k p (validate_key_path-IsInside f.dir key p rooted found))
  ]

  if-Reaches :
      {A : Type 0} (b : Bool) (x y : Result A × S)
      → Reaches x.1
      → Reaches y.1
      → Reaches (if b then x else y).1
  if-Reaches true x y h k = h
  if-Reaches false x y h k = k

  read-Reaches : (key : Text) (s : S) → Reaches s → Reaches (read system f key s).1
  unfolding read
  read-Reaches key s h = at_key-Reaches key _ s h (λ p inside.
      if-Reaches (is_file_exist system f p s) _ _
        (rw (content-state (system.read_file p s)) (reads p s0 s inside h)) h)

  delete-Reaches : (key : Text) (s : S) → Reaches s → Reaches (delete system f key s).1
  unfolding delete
  delete-Reaches key s h = at_key-Reaches key _ s h (λ p inside.
      if-Reaches (is_file_exist system f p s) _ _
        (rw (finished-state (system.remove p s)) (removes p s0 s inside h)) h)

  written-Reaches :
      (p bytes : Text) (r : Bool × S)
      → IsInside f.dir p
      → Reaches r.1
      → Reaches (written system f p bytes r).1
  unfolding written
  written-Reaches p bytes (false, s) inside h = h
  written-Reaches p bytes (true, s) inside h =
      rw (finished-state (system.write p bytes s)) (writes p bytes s0 s inside h)

  write_in-Reaches :
      (dirstat : Option Stat) (key bytes : Text) (s : S)
      → Reaches s
      → Reaches (write_in system f dirstat key bytes s).1
  unfolding write_in
  write_in-Reaches none key bytes s h = h
  write_in-Reaches (some dirstat) key bytes s h = if-Reaches (not dirstat.is_dir) _ _ h (
      if-Reaches (ltb f.max_size dirstat.size) _ _ h (
        at_key-Reaches key _ s h (λ p inside.
          written-Reaches p bytes (system.open_truncated p s) inside (opens p s0 s inside h))))

  call-Reaches : (c : Call) (s : S) → Reaches s → Reaches (call system f c s)
  unfolding call write
  call-Reaches (read_call key) s h = read-Reaches key s h
  call-Reaches (write_call key bytes) s h = write_in-Reaches (system.stat f.dir s) key bytes s h
  call-Reaches (delete_call key) s h = delete-Reaches key s h
  call-Reaches list_call s h = h

  calls-Reaches : (cs : List Call) (s : S) → Reaches s → Reaches (calls system f cs s)
  unfolding calls
  calls-Reaches [] s h = h
  calls-Reaches (c ∷ cs) s h = calls-Reaches cs (call system f c s) (call-Reaches c s h)

-- Where the path of the directory begins at the root, the calls of Read, Write, Delete and List read,
-- open, write and remove no files but those whose path, when it is cleaned, goes on from the elements
-- of the directory by elements that are not empty and not .. and have no separator in them.
pub calls-Accesses :
    {S : Type 0} (system : System S) (f : File) (cs : List Call) (s : S)
    → is_rooted f.dir ≡ true
    → Accesses system f.dir s (calls system f cs s)
calls-Accesses system f cs s rooted = calls-Reaches system f rooted s cs s (none_of_all s)

-- ===== src/Tests/Browsing.antt =====
-- The file station over a directory of three files in memory.
use mathlib.Core.List.{Perm}
use nas_os.Common.{
  ℕ, String, false, Option, none, some, List, [], ◌∷◌, Result, ok, err, length, take, is_some,
  Bool-cases, ◌≡◌, ◌≤◌, refl, sym, ap, ◌∙◌, inl, inr, ◌==◌, option_eq, string_eq, nat_eq,
  if◌then◌else◌, arith, Option-cases, leb, ◌||◌,
}
use nas_os.Common.Dict
use nas_os.Common.Dict.{Dict, lookup-insert, lookup-erase}
use nas_os.Common.Actions.{Action, ◌>>=◌, and_then, map_error}
use nas_os.Common.Errors.{Exc, os_error, file_not_found}
use nas_os.Agent.Files.{
  Stat, FileEntry, Paths, FileSystem, max_search_results, entry, entry_of, entry_or, or_lstat,
  list_dir, list_names, read_entries, sort_entries, insert_entry, key_le, flag_le, or_skip,
  search_files, wrap_os_error,
}
use nas_os.Agent.Files.Searched.{ReadsOrOsError, matching_walk, search_files-eq-take}
use nas_os.Agent.Files.Listed.{IsSorted, IsTotal, held, list_dir-IsSorted}
use nas_os.Agent.Files.Bodies.{
  Job, copy_body, delete_body, delete_one, delete_path, each, on_files, report,
}
use nas_os.Agent.Files.Bodies.Kept.{Creates, copy_body-keeps}
use nas_os.Agent.Files.Bodies.Gone.{IsPrefix, Removes, delete_body-IsPrefix}

-- A flat directory: the size of each file, under its name.
abbrev Flat : Type 0
Flat = Dict String ℕ

abbrev rank : String → ℕ
rank name = if name == "a" then 0 else if name == "b" then 1 else 2

abbrev plain_paths : Paths
plain_paths = record {
  basename = λ p. p;
  dirname = λ p. "";
  join = λ a b. b;
  relpath = λ a b. a;
  rstrip = λ p. p;
  lower = λ p. p;
  occurs_in = λ q p. (q == "") || (q == p);
  text_le = λ a b. leb (rank a) (rank b);
}

abbrev stat_of : Option ℕ → Result Exc Stat
stat_of none = err (os_error file_not_found "No such file")
stat_of (some size) =
    ok (record { is_dir = size == 0; size = size; mtime = 0; owner_uid = 1000; mode = "rw-r--r--" })

abbrev names_of : Flat → List String
names_of [] = []
names_of ((name, _) ∷ files) = name ∷ names_of files

abbrev remove_if : Option ℕ → String → Action Flat (Unit {0})
remove_if none path s = (err (os_error file_not_found path), s)
remove_if (some _) path s = (ok tt, Dict.erase path s)

abbrev copy_if : Option ℕ → String → Action Flat (Unit {0})
copy_if none dest s = (err (os_error file_not_found dest), s)
copy_if (some size) dest s = (ok tt, Dict.insert dest size s)

abbrev flat_files : FileSystem Flat
flat_files = record {
  listdir = λ path s. ok (names_of s);
  stat = λ path s. stat_of (Dict.lookup path s);
  lstat = λ path s. stat_of (Dict.lookup path s);
  path_exists = λ path s. is_some (Dict.lookup path s);
  is_dir = λ path s. false;
  is_link = λ path s. false;
  walk = λ path s. ("", [], names_of s) ∷ [];
  mkdir = λ path s. (ok tt, Dict.insert path 0 s);
  rename = λ path dest s. (ok tt, s);
  rmtree = λ path s. remove_if (Dict.lookup path s) path s;
  remove = λ path s. remove_if (Dict.lookup path s) path s;
  copytree = λ source dest s. copy_if (Dict.lookup source s) dest s;
  copy_file = λ source dest s. copy_if (Dict.lookup source s) dest s;
  move = λ source dest s. (ok tt, s);
}

abbrev three_files : Flat
three_files = ("b", 5) ∷ ("a", 3) ∷ ("dir", 0) ∷ []

lookup-copy_if :
    (found : Option ℕ) (dest path : String) (s : Flat) (n : ℕ)
    → Dict.lookup dest s ≡ none
    → Dict.lookup path s ≡ some n
    → Dict.lookup path (copy_if found dest s).1 ≡ some n
lookup-copy_if none dest path s n free h = h
lookup-copy_if (some size) dest path s n free h = elim (Bool-cases (path == dest)) [
  | inl e ↦
      let same : path ≡ dest = ground arith in
      let h' = sym (ap (λ p. Dict.lookup p s) same) ∙ h in
      let bad : none ≡ some n = sym free ∙ h' in cc
  | inr e ↦ rw (lookup-insert path dest size s, e) h
]

creates : Creates ℕ flat_files
creates = record {
  at = λ s path. Dict.lookup path s;
  exists_lem = λ path s. refl;
  copytree_lem = λ source dest path s n. lookup-copy_if (Dict.lookup source s) dest path s n;
  copy_file_lem = λ source dest path s n. lookup-copy_if (Dict.lookup source s) dest path s n;
}

is_some-remove_if :
    (found : Option ℕ) (path : String) (s : Flat)
    → (remove_if found path s).0 ≡ ok tt
    → is_some (Dict.lookup path (remove_if found path s).1) ≡ false
is_some-remove_if none path s h = cc
is_some-remove_if (some size) path s h = ground (arith, lookup-erase path path s)

absent-remove_if :
    (found : Option ℕ) (path other : String) (s : Flat)
    → is_some (Dict.lookup other s) ≡ false
    → is_some (Dict.lookup other (remove_if found path s).1) ≡ false
absent-remove_if none path other s h = h
absent-remove_if (some size) path other s h = elim (Bool-cases (other == path)) [
  | inl e ↦ rw (lookup-erase other path s, e) refl
  | inr e ↦ rw (lookup-erase other path s, e) h
]

removes : Removes flat_files
removes = record {
  present = λ s path. is_some (Dict.lookup path s);
  rmtree_lem = λ path s. is_some-remove_if (Dict.lookup path s) path s;
  remove_lem = λ path s. is_some-remove_if (Dict.lookup path s) path s;
  rmtree_absent = λ path other s. absent-remove_if (Dict.lookup path s) path other s;
  remove_absent = λ path other s. absent-remove_if (Dict.lookup path s) path other s;
}

abbrev start : Job Flat
start = record { files = three_files; reports = [] }

copy_body-keeps_example :
    Dict.lookup "a"
      (copy_body plain_paths flat_files (λ i. i == 1) "" ("a" ∷ "new" ∷ []) start).1.files
    ≡ some 3
unfolding Dict.lookup string_eq creates
copy_body-keeps_example =
    copy_body-keeps plain_paths flat_files creates (λ i. i == 1) "" ("a" ∷ "new" ∷ []) start "a" 3
      refl

-- The second path is not looked at: the job was cancelled before.
deleted : (delete_body plain_paths flat_files (λ i. i == 1) ("a" ∷ "b" ∷ []) start).0 ≡ ok tt
unfolding delete_body each delete_one delete_path on_files report map_error ◌>>=◌ and_then
    wrap_os_error Dict.lookup Dict.erase string_eq nat_eq
deleted = refl

delete_body-IsPrefix_example :
    IsPrefix removes.present
      (λ i. i == 1)
      0
      ("a" ∷ "b" ∷ [])
      start
      (delete_body plain_paths flat_files (λ i. i == 1) ("a" ∷ "b" ∷ []) start).1
delete_body-IsPrefix_example =
    delete_body-IsPrefix plain_paths flat_files removes (λ i. i == 1) ("a" ∷ "b" ∷ []) start deleted

reads_or_os_error : (s : Flat) → ReadsOrOsError plain_paths flat_files s
unfolding entry entry_or or_lstat
reads_or_os_error s path = elim (Option-cases (Dict.lookup path s)) [
  | inl e ↦ inr (file_not_found, "No such file", rw e refl)
  | inr (n, e) ↦ inl (
    entry_of plain_paths path
        (record { is_dir = n == 0; size = n; mtime = 0; owner_uid = 1000; mode = "rw-r--r--" }),
    rw e refl,
  )
]

search_files-eq-take_example :
    (search_files plain_paths flat_files "" "b" three_files
      ≡ ok (
          take max_search_results (
            matching_walk plain_paths flat_files "b"
              (("", [], "b" ∷ "a" ∷ "dir" ∷ []) ∷ [])
              three_files)))
    × (length (
          take max_search_results (
            matching_walk plain_paths flat_files "b"
              (("", [], "b" ∷ "a" ∷ "dir" ∷ []) ∷ [])
              three_files))
        ≤ max_search_results)
search_files-eq-take_example =
    search_files-eq-take plain_paths flat_files "" "b" three_files (reads_or_os_error three_files)

total : IsTotal plain_paths
total a b h = ground arith

abbrev file : String → ℕ → FileEntry
file name size = record {
  name = name;
  path = name;
  is_dir = size == 0;
  size = size;
  mtime = 0;
  owner_uid = 1000;
}

abbrev listing : List FileEntry
listing = file "dir" 0 ∷ file "a" 3 ∷ file "b" 5 ∷ []

listed : list_dir plain_paths flat_files "" three_files ≡ ok listing
unfolding list_dir list_names read_entries or_skip entry entry_or or_lstat sort_entries insert_entry
    key_le flag_le wrap_os_error Dict.lookup string_eq nat_eq
listed = refl

list_dir-IsSorted_example :
    IsSorted plain_paths listing
    × Perm listing (held plain_paths flat_files "" ("b" ∷ "a" ∷ "dir" ∷ []) three_files)
list_dir-IsSorted_example =
    list_dir-IsSorted plain_paths flat_files "" three_files ("b" ∷ "a" ∷ "dir" ∷ []) listing total
      refl listed

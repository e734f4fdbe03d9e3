-- ===== src/System/Acl.antt =====
-- system/acl.py: the calls of setfacl that replace an access list, the parser of getfacl and the
-- access lists in memory. `str.strip`, `splitlines`, `split(":")`, `in` and `int` are parameters.
pub mod Replaced
use nas_os.Common.{
  ℕ, String, ◌<>◌, starts_with, Bool, not, ◌&&◌, ◌||◌, Option, none, some, List, [], ◌∷◌, ◌++◌, map,
  Result, ok, err, ◌==◌, if◌then◌else◌, string_eq, nat_eq, pair_eq,
}
use nas_os.Common.Dict
use nas_os.Common.Dict.{Dict}
use nas_os.Common.Text.{str, join}
use nas_os.Common.Actions.{Action, ◌>>=◌}
use nas_os.Common.Errors.{Exc, acl_error}
use nas_os.System.Runner.{CommandResult}

-- `(kind, numeric_id, level)`: "user" or "group", and "rw" or "ro"
pub record AclEntry : Type 0 where
  pub kind : String
  pub numeric_id : ℕ
  pub level : String

pub record Acl (S : Type 0) : Type 0 where
  pub replace_all : String → List AclEntry → Bool → Action S (Unit {0})
  pub read_acl : String → S → Result Exc (List AclEntry)

abbrev pub always_entries : String
always_entries = "u::rwx,g::---,m::rwx,d:u::rwx,d:g::---,d:m::rwx,o::---,d:o::---"

unfoldable pub qualifier : String → String
unfolding string_eq
qualifier kind = if kind == "user" then "u" else "g"

unfoldable pub perm : String → String
unfolding string_eq
perm level = if level == "rw" then "rwx" else "r-x"

unfoldable pub specs_of : List AclEntry → List String
unfolding qualifier perm str
specs_of [] = []
specs_of (e ∷ es) =
    let spec = qualifier e.kind <> (":" <> (str e.numeric_id <> (":" <> perm e.level))) in
    spec ∷ ("d:" <> spec) ∷ specs_of es

unfoldable pub reset_args : String → Bool → List String
reset_args path recursive = if recursive then "-b" ∷ "-R" ∷ path ∷ [] else "-b" ∷ path ∷ []

unfoldable pub apply_args : String → List AclEntry → Bool → List String
unfolding specs_of join
apply_args path entries recursive =
    let specs = join "," (always_entries ∷ specs_of entries) in
    if recursive then "-R" ∷ "-m" ∷ specs ∷ path ∷ [] else "-m" ∷ specs ∷ path ∷ []

pub record Reading : Type 0 where
  pub strip : String → String
  pub splitlines : String → List String
  pub split_colon : String → List String
  pub occurs_in : String → String → Bool
  pub int : String → Result Exc ℕ

module _ (reading : Reading) where
  module _ {S : Type 0} (run : List String → S → CommandResult × S) where
    unfoldable pub checked : CommandResult → String → Result Exc (Unit {0})
    unfolding nat_eq string_eq
    checked result error =
        if result.returncode == 0
        then ok tt
        else err (
            acl_error
              (if reading.strip result.stderr == "" then error else reading.strip result.stderr))

    unfoldable pub run_setfacl : List String → Action S (Unit {0})
    unfolding checked join
    run_setfacl args s =
        let (result, s') = run ("setfacl" ∷ args) s in
        (checked result ("setfacl " <> (join " " args <> " failed")), s')

    -- `SetfaclAcl.replace_all`
    unfoldable pub replace_all : String → List AclEntry → Bool → Action S (Unit {0})
    unfolding run_setfacl reset_args apply_args
    replace_all path entries recursive = do
      _ ← run_setfacl (reset_args path recursive)
      run_setfacl (apply_args path entries recursive)

  unfoldable pub entry_with :
      String → String → Result Exc ℕ → Result Exc (List AclEntry) → Result Exc (List AclEntry)
  unfolding string_eq
  entry_with qualifier perm (ok id) (ok es) = ok (
      record {
        kind = if qualifier == "user" then "user" else "group";
        numeric_id = id;
        level = if reading.occurs_in "w" perm then "rw" else "ro";
      }
      ∷ es)
  entry_with qualifier perm (ok id) (err e) = err e
  entry_with qualifier perm (err e) rest = err e

  -- A line of three parts, before the entries of the lines after it.
  unfoldable pub parse_parts : List String → Result Exc (List AclEntry) → Result Exc (List AclEntry)
  unfolding entry_with string_eq
  parse_parts (qualifier ∷ id_str ∷ perm ∷ []) rest =
      if not (qualifier == "user" || qualifier == "group") || id_str == ""
      then rest
      else entry_with qualifier perm (reading.int id_str) rest
  parse_parts _ rest = rest

  unfoldable pub parse_lines : List String → Result Exc (List AclEntry)
  unfolding parse_parts string_eq
  parse_lines [] = ok []
  parse_lines (line ∷ lines) =
      let text = reading.strip line in
      let rest = parse_lines lines in
      if text == "" || (starts_with text "#" || starts_with text "default:")
      then rest
      else parse_parts (reading.split_colon text) rest

  -- `_parse_getfacl`
  unfoldable pub parse_getfacl : String → Result Exc (List AclEntry)
  unfolding parse_lines
  parse_getfacl output = parse_lines (reading.splitlines output)

-- `FakeAcl.entries`
abbrev pub FakeAcl : Type 0
FakeAcl = Dict String (Dict (String × ℕ) String)

unfoldable pub by_principal : List AclEntry → Dict (String × ℕ) String → Dict (String × ℕ) String
unfolding pair_eq string_eq nat_eq
by_principal [] d = d
by_principal (e ∷ es) d = by_principal es (Dict.insert (e.kind, e.numeric_id) e.level d)

abbrev pub to_entry : (String × ℕ) × String → AclEntry
to_entry ((kind, numeric_id), level) = record {
  kind = kind;
  numeric_id = numeric_id;
  level = level;
}

unfoldable pub entries_of : Option (Dict (String × ℕ) String) → List AclEntry
entries_of none = []
entries_of (some d) = map to_entry d

unfoldable pub fake_acl : Acl FakeAcl
unfolding by_principal entries_of string_eq
fake_acl = record {
  replace_all = λ path entries recursive s. (ok tt, Dict.insert path (by_principal entries []) s);
  read_acl = λ path s. ok (entries_of (Dict.lookup path s));
}

-- ===== src/System/Users/Fake.antt =====
-- `FakePosixUsers` of system/users.py, the accounts that development and the tests use.
use nas_os.Common.{
  ℕ, ◌+◌, String, ◌<>◌, Bool, true, Option, none, some, List, [], ◌∷◌, ◌++◌, ok, contains,
  if◌then◌else◌, string_eq,
}
use nas_os.Common.Dict
use nas_os.Common.Dict.{Dict}
use nas_os.System.Users.{PosixUsers}

pub record FakePosixUsers : Type 0 where
  pub next_uid : ℕ
  pub next_gid : ℕ
  pub users : Dict String ℕ
  pub groups : Dict String ℕ
  pub memberships : Dict String (List String)
  pub unix_passwords : Dict String String
  pub smb_passwords : Dict String String
  pub smb_enabled : Dict String Bool
  pub calls : List String

abbrev pub no_accounts : FakePosixUsers
no_accounts = record {
  next_uid = 5000;
  next_gid = 6000;
  users = [];
  groups = [];
  memberships = [];
  unix_passwords = [];
  smb_passwords = [];
  smb_enabled = [];
  calls = [];
}

unfoldable pub set_of : Option (List String) → List String
set_of none = []
set_of (some xs) = xs

-- `set.add` and `set.discard`
unfoldable pub set_add : String → List String → List String
set_add x xs = if contains xs x then xs else xs ++ (x ∷ [])

unfoldable pub discard : String → List String → List String
discard x [] = []
discard x (y ∷ ys) = let rest = discard x ys in if contains (y ∷ []) x then rest else y ∷ rest

unfoldable pub called : String → FakePosixUsers → FakePosixUsers
called text s = record s { calls = s.calls ++ (text ∷ []) }

unfoldable pub join_group : String → String → FakePosixUsers → FakePosixUsers
unfolding set_of set_add
join_group username group s = record s {
  memberships =
      Dict.insert username (set_add group (set_of (Dict.lookup username s.memberships)))
        s.memberships;
}

unfoldable pub leave_from : String → String → Option (List String) → FakePosixUsers → FakePosixUsers
unfolding discard
leave_from username group none s = s
leave_from username group (some groups) s = record s {
  memberships = Dict.insert username (discard group groups) s.memberships;
}

-- `FakePosixUsers`; no call of it fails.
unfoldable pub fake_posix_users : PosixUsers FakePosixUsers
unfolding called join_group leave_from
fake_posix_users = record {
  lookup = λ username s. (ok (Dict.lookup username s.users), s);
  create = λ username home_dir description s. (
    ok s.next_uid,
    join_group username "nasos-users" (record (called ("create:" <> username) s) {
      next_uid = s.next_uid + 1;
      users = Dict.insert username s.next_uid s.users;
    }),
  );
  delete = λ username delete_home s. (
    ok tt,
    record (called ("delete:" <> username) s) {
      users = Dict.erase username s.users;
      memberships = Dict.erase username s.memberships;
      unix_passwords = Dict.erase username s.unix_passwords;
      smb_passwords = Dict.erase username s.smb_passwords;
      smb_enabled = Dict.erase username s.smb_enabled;
    },
  );
  set_unix_password = λ username password s. (
    ok tt,
    record (called ("set_unix_password:" <> username) s) {
      unix_passwords = Dict.insert username password s.unix_passwords;
    },
  );
  add_to_group = λ username group s. (
    ok tt,
    join_group username group (called ("add_to_group:" <> (username <> (":" <> group))) s),
  );
  remove_from_group = λ username group s. (
    ok tt,
    leave_from username group (Dict.lookup username s.memberships)
        (called ("remove_from_group:" <> (username <> (":" <> group))) s),
  );
  smb_create = λ username password s. (
    ok tt,
    record (called ("smb_create:" <> username) s) {
      smb_passwords = Dict.insert username password s.smb_passwords;
      smb_enabled = Dict.insert username true s.smb_enabled;
    },
  );
  smb_set_password = λ username password s. (
    ok tt,
    record (called ("smb_set_password:" <> username) s) {
      smb_passwords = Dict.insert username password s.smb_passwords;
    },
  );
  smb_delete = λ username s. (
    ok tt,
    record (called ("smb_delete:" <> username) s) {
      smb_passwords = Dict.erase username s.smb_passwords;
      smb_enabled = Dict.erase username s.smb_enabled;
    },
  );
  smb_set_enabled = λ username enabled s. (
    ok tt,
    record (called
        ("smb_set_enabled:" <> (username <> (":" <> (if enabled then "True" else "False")))) s) {
          smb_enabled = Dict.insert username enabled s.smb_enabled;
        },
  );
  group_create = λ name s. (
    ok s.next_gid,
    record (called ("group_create:" <> name) s) {
      next_gid = s.next_gid + 1;
      groups = Dict.insert name s.next_gid s.groups;
    },
  );
  group_delete = λ name s.
      (ok tt, record (called ("group_delete:" <> name) s) { groups = Dict.erase name s.groups });
}

-- ===== src/Tests/Accounts.antt =====
-- The invariant of the users at a world reached over the in-memory accounts.
use nas_os.Common.{
  String, true, false, none, some, ok-injective, ◌≡◌, refl, ap, ◌∙◌, arith, inl, ◌==◌, option_eq,
  string_eq, nat_eq,
}
use nas_os.Common.Dict
use nas_os.Common.Dict.{Dict, lookup-insert, lookup-insert_same, lookup-erase}
use nas_os.Common.Actions.{◌>>=◌, and_then, map_error}
use nas_os.Agent.Users.{as_rpc, create_accounts, create_handler, set_password_handler}
use nas_os.System.Users.Fake.{
  FakePosixUsers, no_accounts, called, join_group, set_of, set_add, fake_posix_users,
}
use nas_os.Services.{World, call, service_result}
use nas_os.Users.{
  User, create_user, set_password, add_user, after_password, update_user, update_row,
  username_taken, notify, created_user, Database,
}
use nas_os.Users.Contract.{Account, Contract}
use nas_os.Users.Invariant.{AgreesAt, initial, created, passworded, no_rows}
use nas_os.Users.Invariant.Kept.{table_sound}

abbrev account_of : FakePosixUsers → String → Account
account_of s name = record {
  uid = Dict.lookup name s.users;
  unix = Dict.lookup name s.unix_passwords;
  smb = Dict.lookup name s.smb_passwords;
}

lookup-insert_other :
    {A : Type 0} (j k : String) (a : A) (d : Dict String A)
    → (j == k) ≡ false
    → Dict.lookup j (Dict.insert k a d) ≡ Dict.lookup j d
lookup-insert_other j k a d h = rw (lookup-insert j k a d, h) refl

lookup-erase_same :
    {A : Type 0} (k : String) (d : Dict String A) → Dict.lookup k (Dict.erase k d) ≡ none
lookup-erase_same k d = ground (arith, lookup-erase k k d)

lookup-erase_other :
    {A : Type 0} (j k : String) (d : Dict String A)
    → (j == k) ≡ false
    → Dict.lookup j (Dict.erase k d) ≡ Dict.lookup j d
lookup-erase_other j k d h = rw (lookup-erase j k d, h) refl

contract : Contract fake_posix_users
unfolding fake_posix_users called join_group
contract = record {
  account = account_of;
  fits = λ name password. true;
  lookup_lem = λ name s. refl;
  create_framed = λ name home description. record {
    frame = λ s other n. simp (lookup-insert_other other name s.next_uid s.users n);
  };
  create_lem = λ name home description s uid h.
      lookup-insert_same name s.next_uid s.users ∙ ap some (ok-injective h);
  set_unix_lem = λ name password fit. record {
    framed = record {
      frame = λ s other n. simp (lookup-insert_other other name password s.unix_passwords n);
    };
    effect = λ s. inl (refl, simp (lookup-insert_same name password s.unix_passwords));
  };
  smb_create_lem = λ name password fit. record {
    framed = record {
      frame = λ s other n. simp (lookup-insert_other other name password s.smb_passwords n);
    };
    effect = λ s. inl (refl, simp (lookup-insert_same name password s.smb_passwords));
  };
  smb_set_lem = λ name password fit. record {
    framed = record {
      frame = λ s other n. simp (lookup-insert_other other name password s.smb_passwords n);
    };
    effect = λ s. inl (refl, simp (lookup-insert_same name password s.smb_passwords));
  };
  smb_delete_lem = λ name. record {
    framed = record { frame = λ s other n. simp (lookup-erase_other other name s.smb_passwords n) };
    effect = λ s. inl (refl, simp (lookup-erase_same name s.smb_passwords));
  };
  smb_enabled_lem = λ name enabled. record {
    framed = record { frame = λ s other n. refl };
    effect = λ s. inl (refl, refl);
  };
  add_to_group_lem = λ name group. record {
    framed = record { frame = λ s other n. refl };
    effect = λ s. inl (refl, refl);
  };
  delete_framed = λ name home. record {
    frame = λ s other n. simp (
      lookup-erase_other other name s.users n,
      lookup-erase_other other name s.unix_passwords n,
      lookup-erase_other other name s.smb_passwords n,
    );
  };
}

-- A user who has changed the password once.
abbrev eve : User
eve = record {
  uid = 5000;
  username = "eve";
  description = "";
  smb_enabled = true;
  ftp_enabled = false;
  created_by_nasos = true;
  smb_password_synced = true;
}

abbrev after_create : World Database FakePosixUsers
after_create =
    (create_user fake_posix_users "eve" "one" "" (record { db = no_rows; system = no_accounts })).1

abbrev after_change : World Database FakePosixUsers
after_change = (set_password fake_posix_users eve "two" after_create).1

after_change-users : Dict.lookup 5000 after_change.db.users ≡ some eve
unfolding fake_posix_users create_user set_password call after_password service_result
    create_handler create_accounts set_password_handler as_rpc created_user add_user update_user
    update_row username_taken notify called join_group set_of set_add map_error ◌>>=◌ and_then
    Dict.lookup Dict.insert string_eq nat_eq
after_change-users = refl

after_create-users : Dict.lookup 5000 after_create.db.users ≡ some eve
unfolding fake_posix_users create_user call service_result create_handler create_accounts as_rpc
    created_user add_user username_taken called join_group set_of set_add map_error ◌>>=◌ and_then
    Dict.lookup Dict.insert string_eq nat_eq
after_create-users = refl

table_sound_example : (eve.uid ≡ 5000) × AgreesAt eve (account_of after_change.system "eve")
unfolding Dict.lookup contract
table_sound_example =
    table_sound fake_posix_users contract after_change
      (passworded eve "two" (created "eve" "one" "" (initial no_accounts) refl (inl refl)) refl
        after_create-users)
      5000 eve after_change-users

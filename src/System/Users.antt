-- ===== src/System/Users.antt =====
-- system/users.py: `PosixUsers`, the accounts of the system and of Samba, with the adapter that runs
-- the commands. `str.strip`, `int` and the look-up of `pwd` are parameters.
pub mod Fake
pub mod Lines
use nas_os.Common.{
  ℕ, String, ◌<>◌, Bool, Option, none, some, List, [], ◌∷◌, Result, ok, err, ◌==◌, if◌then◌else◌,
  string_eq, nat_eq,
}
use nas_os.Common.Actions.{Action, ◌>>=◌, give}
use nas_os.Common.Errors.{Exc, system_user_error, index_error}
use nas_os.System.Runner.{CommandResult}

pub record PosixUsers (S : Type 0) : Type 0 where
  pub lookup : String → Action S (Option ℕ)
  pub create : String → String → String → Action S ℕ
  pub delete : String → Bool → Action S (Unit {0})
  pub set_unix_password : String → String → Action S (Unit {0})
  pub add_to_group : String → String → Action S (Unit {0})
  pub remove_from_group : String → String → Action S (Unit {0})
  pub smb_create : String → String → Action S (Unit {0})
  pub smb_set_password : String → String → Action S (Unit {0})
  pub smb_delete : String → Action S (Unit {0})
  pub smb_set_enabled : String → Bool → Action S (Unit {0})
  pub group_create : String → Action S ℕ
  pub group_delete : String → Action S (Unit {0})

-- What `chpasswd` and `smbpasswd -s` read.
unfoldable pub chpasswd_input : String → String → String
chpasswd_input username password = username <> (":" <> (password <> "\n"))

unfoldable pub smbpasswd_input : String → String
smbpasswd_input password = password <> ("\n" <> (password <> "\n"))

unfoldable pub useradd_argv : String → String → String → List String
useradd_argv username home_dir description =
    "useradd" ∷ "-m" ∷ "-d" ∷ home_dir ∷ "-s" ∷ "/sbin/nologin" ∷ "-G" ∷ "nasos-users" ∷ "-c"
    ∷ description ∷ username ∷ []

unfoldable pub userdel_argv : String → Bool → List String
userdel_argv username delete_home =
    if delete_home then "userdel" ∷ "-r" ∷ username ∷ [] else "userdel" ∷ username ∷ []

-- `text.split(":")[2]`, of the parts
unfoldable pub third : List String → Result Exc String
third (_ ∷ _ ∷ part ∷ _) = ok part
third _ = err index_error

module _ {S : Type 0} (run : List String → String → S → CommandResult × S) (strip : String → String)
    (int : String → Result Exc ℕ) (split_colon : String → List String) where
  -- `result.stderr.strip() or error`
  unfoldable pub message_of : CommandResult → String → String
  unfolding string_eq
  message_of result error = if strip result.stderr == "" then error else strip result.stderr

  unfoldable pub checked : CommandResult → String → Result Exc (Unit {0})
  unfolding message_of nat_eq
  checked result error =
      if result.returncode == 0 then ok tt else err (system_user_error (message_of result error))

  -- `_run`
  unfoldable pub run_checked : List String → String → String → Action S (Unit {0})
  unfolding checked
  run_checked argv error input s = (checked (run argv input s).0 error, (run argv input s).1)

  -- `id -u`, and its output as a number
  unfoldable pub user_id : String → Action S ℕ
  unfolding message_of nat_eq
  user_id username s =
      let (result, s') = run ("id" ∷ "-u" ∷ username ∷ []) "" s in
      (
        (if result.returncode == 0
            then int (strip result.stdout)
            else err (system_user_error (message_of result ("id -u failed for " <> username)))),
        s',
      )

  unfoldable pub int_or_raise : Result Exc String → Result Exc ℕ
  int_or_raise (ok text) = int text
  int_or_raise (err e) = err e

  unfoldable pub group_id : String → Action S ℕ
  unfolding nat_eq int_or_raise third
  group_id name s =
      let (result, s') = run ("getent" ∷ "group" ∷ name ∷ []) "" s in
      (
        (if result.returncode == 0
            then int_or_raise (third (split_colon (strip result.stdout)))
            else err (system_user_error ("getent group failed for " <> name))),
        s',
      )

  unfoldable pub real_create : String → String → String → Action S ℕ
  unfolding run_checked user_id useradd_argv
  real_create username home_dir description = do
    _ ←
        run_checked (useradd_argv username home_dir description) ("useradd failed for " <> username)
          ""
    user_id username

  unfoldable pub real_group_create : String → Action S ℕ
  unfolding run_checked group_id
  real_group_create name = do
    _ ← run_checked ("groupadd" ∷ name ∷ []) ("groupadd failed for " <> name) ""
    group_id name

  -- `RealPosixUsers`
  unfoldable pub real_posix_users : (String → S → Option ℕ) → PosixUsers S
  unfolding run_checked real_create real_group_create userdel_argv chpasswd_input smbpasswd_input
  real_posix_users getpwnam = record {
    lookup = λ username s. (ok (getpwnam username s), s);
    create = real_create;
    delete = λ username delete_home.
        run_checked (userdel_argv username delete_home) ("userdel failed for " <> username) "";
    set_unix_password = λ username password.
        run_checked ("chpasswd" ∷ []) ("chpasswd failed for " <> username)
          (chpasswd_input username password);
    add_to_group = λ username group.
        run_checked ("usermod" ∷ "-aG" ∷ group ∷ username ∷ []) ("usermod failed for " <> username)
          "";
    remove_from_group = λ username group.
        run_checked ("gpasswd" ∷ "-d" ∷ username ∷ group ∷ [])
          ("gpasswd -d failed for " <> username) "";
    smb_create = λ username password.
        run_checked ("smbpasswd" ∷ "-s" ∷ "-a" ∷ username ∷ [])
          ("smbpasswd -a failed for " <> username) (smbpasswd_input password);
    smb_set_password = λ username password.
        run_checked ("smbpasswd" ∷ "-s" ∷ username ∷ []) ("smbpasswd failed for " <> username)
          (smbpasswd_input password);
    smb_delete = λ username.
        run_checked ("pdbedit" ∷ "-x" ∷ "-u" ∷ username ∷ []) ("pdbedit -x failed for " <> username)
          "";
    smb_set_enabled = λ username enabled.
        let flag = if enabled then "-e" else "-d" in
        run_checked ("smbpasswd" ∷ flag ∷ username ∷ [])
          ("smbpasswd " <> (flag <> (" failed for " <> username))) "";
    group_create = real_group_create;
    group_delete = λ name. run_checked ("groupdel" ∷ name ∷ []) ("groupdel failed for " <> name) "";
  }

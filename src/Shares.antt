-- ===== src/Shares.antt =====
-- The tables that services/shares.py works on, with the views of services/samba_config.py. The rendering
-- of the template is a parameter, and so is the number that the database gives to a new row.
pub mod Service
pub mod Registered
pub mod Applied
use nas_os.Common.{
  ℕ, String, ◌<>◌, Bool, true, false, not, ◌&&◌, ◌||◌, Option, none, some, List, [], ◌∷◌, ◌++◌, map,
  Result, ok, err, ◌==◌, if◌then◌else◌, string_eq, nat_eq,
}
use nas_os.Common.Dict
use nas_os.Common.Dict.{Dict}
use nas_os.Common.Actions.{Action, ◌>>=◌, give}
use nas_os.Common.Errors.{Exc, service_error, integrity_error}
use nas_os.Services.{World, call}
use nas_os.System.Acl.{AclEntry}
use nas_os.Agent.Users.{GroupInfo}
use nas_os.Agent.Shares.{VolumeInfo}
use nas_os.Users.{User}

pub record GroupMeta : Type 0 where
  pub gid : ℕ
  pub name : String
  pub description : String
  pub created_by_nasos : Bool

pub record Volume : Type 0 where
  pub id : ℕ
  pub name : String
  pub mountpoint : String
  pub filesystem : String
  pub managed : Bool

pub record Share : Type 0 where
  pub id : ℕ
  pub name : String
  pub volume_id : ℕ
  pub path : String
  pub description : String
  pub smb_enabled : Bool

-- `(principal_type, principal, level)`
pub record Permission : Type 0 where
  pub principal_type : String
  pub principal : String
  pub level : String

pub record SharePermission : Type 0 where
  pub share_id : ℕ
  pub permission : Permission

pub record Database : Type 0 where
  pub users : Dict ℕ User
  pub groups : Dict ℕ GroupMeta
  pub volumes : Dict ℕ Volume
  pub shares : Dict ℕ Share
  pub permissions : List SharePermission

pub record ShareSambaView : Type 0 where
  pub name : String
  pub path : String
  pub valid_users : List String
  pub read_list : List String
  pub write_list : List String

unfoldable pub principal_ref : Permission → String
unfolding string_eq
principal_ref p = if p.principal_type == "group" then "@" <> p.principal else p.principal

unfoldable pub refs_at : String → List Permission → List String
unfolding principal_ref string_eq
refs_at level [] = []
refs_at level (p ∷ ps) =
    let rest = refs_at level ps in if p.level == level then principal_ref p ∷ rest else rest

unfoldable pub build_share_view : Share → List Permission → ShareSambaView
unfolding principal_ref refs_at
build_share_view share permissions = record {
  name = share.name;
  path = share.path;
  valid_users = map principal_ref permissions;
  read_list = refs_at "ro" permissions;
  write_list = refs_at "rw" permissions;
}

-- `list_permissions`
unfoldable pub list_permissions : ℕ → List SharePermission → List Permission
unfolding nat_eq
list_permissions share_id [] = []
list_permissions share_id (row ∷ rows) =
    let rest = list_permissions share_id rows in
    if row.share_id == share_id then row.permission ∷ rest else rest

-- `delete(SharePermission)`, also the cascade of a share that is deleted
unfoldable pub without_share : ℕ → List SharePermission → List SharePermission
unfolding nat_eq
without_share share_id [] = []
without_share share_id (row ∷ rows) =
    let rest = without_share share_id rows in if row.share_id == share_id then rest else row ∷ rest

unfoldable pub views : Dict ℕ Share → List SharePermission → List ShareSambaView
unfolding build_share_view list_permissions
views [] permissions = []
views ((_, share) ∷ shares) permissions =
    build_share_view share (list_permissions share.id permissions) ∷ views shares permissions

unfoldable pub uid_of : String → Dict ℕ User → Result Exc ℕ
unfolding string_eq
uid_of principal [] = err (service_error "not_found" ("no such NAS-OS user: " <> principal))
uid_of principal ((_, user) ∷ users) =
    let rest = uid_of principal users in if user.username == principal then ok user.uid else rest

unfoldable pub gid_of : String → Dict ℕ GroupMeta → Result Exc ℕ
unfolding string_eq
gid_of principal [] = err (service_error "not_found" ("no such NAS-OS group: " <> principal))
gid_of principal ((_, group) ∷ groups) =
    let rest = gid_of principal groups in if group.name == principal then ok group.gid else rest

-- `_resolve_numeric_id`
unfoldable pub resolve_numeric_id : Database → Permission → Result Exc ℕ
unfolding uid_of gid_of string_eq
resolve_numeric_id db p =
    if p.principal_type == "user" then uid_of p.principal db.users else gid_of p.principal db.groups

unfoldable pub add_entry :
    Permission → Result Exc ℕ → Result Exc (List AclEntry) → Result Exc (List AclEntry)
add_entry p (err e) rest = err e
add_entry p (ok id) (err e) = err e
add_entry p (ok id) (ok es) =
    ok (record { kind = p.principal_type; numeric_id = id; level = p.level } ∷ es)

unfoldable pub resolve_all : Database → List Permission → Result Exc (List AclEntry)
unfolding resolve_numeric_id add_entry
resolve_all db [] = ok []
resolve_all db (p ∷ ps) = add_entry p (resolve_numeric_id db p) (resolve_all db ps)

-- Whether a row of the permissions has the principal of another: the unique columns.
unfoldable pub is_granted : Permission → List Permission → Bool
unfolding string_eq
is_granted p [] = false
is_granted p (q ∷ qs) =
    (p.principal_type == q.principal_type && p.principal == q.principal) || is_granted p qs

unfoldable pub has_duplicate : List Permission → Bool
unfolding is_granted
has_duplicate [] = false
has_duplicate (p ∷ ps) = is_granted p ps || has_duplicate ps

unfoldable pub rows_of : ℕ → List Permission → List SharePermission
rows_of share_id [] = []
rows_of share_id (p ∷ ps) = record { share_id = share_id; permission = p } ∷ rows_of share_id ps

unfoldable pub is_taken : Share → Dict ℕ Share → Bool
unfolding string_eq
is_taken share [] = false
is_taken share ((_, other) ∷ shares) =
    (share.name == other.name || share.path == other.path) || is_taken share shares

-- The methods of the agent that the services call.
pub record Agent (S : Type 0) : Type 0 where
  pub create_folder : String → Action S (Unit {0})
  pub delete_folder : String → Bool → Action S (Unit {0})
  pub set_permissions : String → List AclEntry → Bool → Action S (Option String)
  pub apply_config : String → Bool → Action S String

-- ===== src/Tests/Sharing.antt =====
-- The configuration of Samba over a short smb.conf, and the permissions of a share.
use Prim.Native.String.{count}
use text.Mathlib.TextLemmas.{length-append}
use nas_os.Common.{
  pair_eq, true, none, ℕ, ◌+◌, String, ◌<>◌, false, ◌||◌, List, [], ◌∷◌, ok, err, leb, ◌≡◌, refl,
  inr, ◌==◌, string_eq, nat_eq, if◌then◌else◌, arith,
}
use nas_os.Common.Errors.{other_error}
use nas_os.Common.Actions.{Action, ◌>>=◌, and_then}
use nas_os.Services.{World, call, service_result}
use nas_os.System.Acl.{AclEntry, fake_acl}
use nas_os.System.Acl.Replaced.{Distinct, read_acl-replace_all}
use nas_os.Shares.{
  Database, GroupMeta, Share, Permission, ShareSambaView, Agent, resolve_all, resolve_numeric_id,
  uid_of, gid_of, add_entry, has_duplicate, is_granted,
}
use nas_os.Shares.Service.{
  replace_permissions, apply_samba_config, set_resolved, set_share_permissions,
}
use nas_os.Shares.Applied.{Replaced, IsApplied, set_share_permissions-ok}
use nas_os.System.Runner.{CommandResult}
use nas_os.System.ManagedFile.{Files, Host, Io, path_of}
use nas_os.System.ManagedFile.Faults.{Serves}
use nas_os.System.ManagedFile.Rollback.{Atomic}
use nas_os.System.ManagedFile.Writes.{content_at}
use nas_os.System.Samba.{
  TextOps, Systemd, join_lines, is_global, is_section, marker_begin, marker_block,
  ensure_include_block, apply_config,
}
use nas_os.System.Samba.Block.{FindsMarker, ensure_include_block-split}
use nas_os.System.Samba.Applied.{apply_config-Committed}
use nas_os.Tests.Files.{conf, before, hash, conf-IsSeparate}

-- Texts of three lines; a text is taken to hold another that is not longer.
abbrev short_texts : TextOps
short_texts = record {
  strip = λ s. if s == "[global]\n" then "[global]" else if s == "[h]\n" then "[h]" else s;
  lower = λ s. s;
  ends_with = λ s t. (s == "[global]") || (s == "[h]");
  splitlines = λ s. "[global]\n" ∷ "a=b\n" ∷ "[h]\n" ∷ [];
  occurs_in = λ s t. leb (count s) (count t);
}

finds : FindsMarker short_texts
finds a b =
    let outer = length-append a (marker_begin <> b) in
    let inner = length-append marker_begin b in ground arith

ensure_include_block-split_example :
    (ensure_include_block short_texts "[global]\na=b\n[h]\n"
      ≡ join_lines ("[global]\n" ∷ "a=b\n" ∷ []) <> (marker_block <> join_lines ("[h]\n" ∷ [])))
    × (ensure_include_block short_texts (ensure_include_block short_texts "[global]\na=b\n[h]\n")
        ≡ ensure_include_block short_texts "[global]\na=b\n[h]\n")
unfolding is_global is_section marker_begin string_eq
ensure_include_block-split_example =
    ensure_include_block-split short_texts "[global]\na=b\n[h]\n" [] ("a=b\n" ∷ []) ("[h]\n" ∷ [])
      "[global]\n" finds refl refl tt refl (inr refl, tt) (refl, refl)

-- systemd cannot restart nmb.service.
abbrev broken_units : Systemd ℕ
broken_units = record {
  restart = λ unit s.
      if unit == "nmb.service" then (err (other_error "unit not found"), s + 1) else (ok tt, s + 1);
  enable = λ unit s. (ok tt, s);
  active_state = λ unit s. (ok "inactive", s);
  wait_active = λ unit seconds s. (ok tt, s);
}

abbrev host : Host ℕ
host = record { files = before; services = 0 }

-- Every command can be run, and nothing is refused.
abbrev run_ok : Files → List String → Action ℕ CommandResult
run_ok files argv s = (ok (record { returncode = 0; stdout = ""; stderr = "" }), s)

abbrev io : Io ℕ
io = record {
  read_fault = λ path files. none;
  write_fault = λ path files. none;
  unlink_fault = λ path files. none;
  run = run_ok;
}

serves : Serves io conf "new"
serves = record {
  relabels = λ files s. refl;
  writes = λ path files c. refl;
  unlinks = λ path files c. refl;
}

apply_config-Committed_example :
    Atomic conf
      (hash "new")
      "new"
      (content_at (path_of conf) before)
      (apply_config short_texts io broken_units hash conf "20260101T000000" "new" false host)
apply_config-Committed_example =
    apply_config-Committed short_texts io broken_units hash conf "20260101T000000" "new" false host
      conf-IsSeparate serves (λ files args s. refl) (inr (λ s. refl))

-- Access lists.
abbrev two_entries : List AclEntry
two_entries =
    record { kind = "user"; numeric_id = 5000; level = "rw" }
    ∷ record { kind = "group"; numeric_id = 5000; level = "ro" }
    ∷ []

two_entries-Distinct : Distinct two_entries
unfolding pair_eq string_eq nat_eq
two_entries-Distinct = ((refl, tt), (tt, tt))

read_acl-replace_all_example :
    fake_acl.read_acl "/volume1/docs" (fake_acl.replace_all "/volume1/docs" two_entries true []).1
    ≡ ok two_entries
read_acl-replace_all_example =
    read_acl-replace_all "/volume1/docs" two_entries true [] two_entries-Distinct

-- A share with the permission of one user, which is replaced by that of a group; the agent counts its
-- calls.
abbrev counting : Agent ℕ
counting = record {
  create_folder = λ path s. (ok tt, s + 1);
  delete_folder = λ path delete_files s. (ok tt, s + 1);
  set_permissions = λ path entries recursive s. (ok none, s + 1);
  apply_config = λ content restart s. (ok "sha", s + 1);
}

abbrev staff : GroupMeta
staff = record { gid = 6000; name = "staff"; description = ""; created_by_nasos = true }

abbrev docs : Share
docs = record {
  id = 1;
  name = "docs";
  volume_id = 1;
  path = "/volume1/docs";
  description = "";
  smb_enabled = true;
}

abbrev world : World Database ℕ
world = record {
  db = record {
    users = [];
    groups = (6000, staff) ∷ [];
    volumes = [];
    shares = (1, docs) ∷ [];
    permissions =
        record {
          share_id = 1;
          permission = record { principal_type = "user"; principal = "eve"; level = "rw" };
        }
        ∷ [];
  };
  system = 0;
}

abbrev for_staff : List Permission
for_staff = record { principal_type = "group"; principal = "staff"; level = "ro" } ∷ []

abbrev render : List ShareSambaView → String
render [] = ""
render (view ∷ views) = "[" <> (view.name <> "]")

permitted : (set_share_permissions render counting docs for_staff false world).0 ≡ ok none
unfolding set_share_permissions set_resolved resolve_all resolve_numeric_id uid_of gid_of add_entry
    replace_permissions has_duplicate is_granted apply_samba_config call service_result ◌>>=◌
    and_then string_eq nat_eq
permitted = refl

set_share_permissions-ok_example :
    ((entries : List AclEntry) × (resolve_all world.db for_staff ≡ ok entries)
      × ((counting.set_permissions "/volume1/docs" entries false 0).0 ≡ ok none))
    × (Replaced 1 for_staff world.db.permissions
          (set_share_permissions render counting docs for_staff false world).1.db.permissions
        × IsApplied render counting
            (set_share_permissions render counting docs for_staff false world).1)
set_share_permissions-ok_example =
    set_share_permissions-ok render counting docs for_staff false world none permitted

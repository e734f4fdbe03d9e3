-- ===== src/Tests/Files.antt =====
-- A managed file whose validator refuses one content, and one whose new content cannot be written.
use nas_os.Common.{
  String, ◌<>◌, Option, none, some, List, [], ◌∷◌, ok, err, ◌≡◌, refl, ◌==◌, string_eq,
  if◌then◌else◌,
}
use nas_os.Common.Dict
use nas_os.Common.Actions.{Action, ◌>>=◌, and_then}
use nas_os.Common.Errors.{Exc, config_validation_error, other_error, os_error, other_kind}
use mathlib.Core.Bool.{false≢true}
use text.Mathlib.TextEquality.{eq_iff}
use nas_os.System.Runner.{CommandResult}
use nas_os.System.ManagedFile.{
  File, Files, Target, Host, Io, path_of, tmp_path, left_at, no_result, place, erase_or, lookup_or,
  stage, relabel, write_atomic, restore, read_previous, backup_prefix, copy_or, unlink_all,
  copy_previous, backup, backup_previous, exchange, prepare, stale_backups, with_prefix, sorted,
  use_tool, after_validate, run_validate, write_and_apply,
}
use nas_os.System.ManagedFile.Writes.{IsSeparate, content_at}
use nas_os.System.ManagedFile.Faults.{Serves}
use nas_os.System.ManagedFile.Rollback.{Atomic, write_and_apply-Atomic, write_and_apply-unvalidated}

abbrev pub conf : Target
conf = record {
  directory = "/etc/samba";
  name = "nasos.conf";
  mode = 420;
  owner = none;
  group = none;
  backup_dir = "/backups";
}

abbrev pub before : Files
before =
    ("/etc/samba/nasos.conf", record { content = "old"; mode = 420; owner = none; group = none })
    ∷ []

abbrev pub hash : String → String
hash s = "hash of " <> s

abbrev refuse : Files → Action (Unit {0}) (Unit {0})
refuse files s = (err (config_validation_error "bad"), s)

abbrev crash : Files → Action (Unit {0}) (Unit {0})
crash files s = (err (other_error "no such program: testparm"), s)

abbrev host : Host (Unit {0})
host = record { files = before; services = tt }

abbrev run_ok : Files → List String → Action (Unit {0}) CommandResult
run_ok files argv s = (ok (record { returncode = 0; stdout = ""; stderr = "" }), s)

abbrev io : Io (Unit {0})
io = record {
  read_fault = λ path files. none;
  write_fault = λ path files. none;
  unlink_fault = λ path files. none;
  run = run_ok;
}

-- While the old content is there, the disk is full, and a part of the new one is left.
abbrev full_until_new : Option String → Option (Exc × Option File)
full_until_new none = none
full_until_new (some content) =
    if content == "new"
    then none
    else some (
      os_error other_kind "no space left",
      some (record { content = "n"; mode = 420; owner = none; group = none }),
    )

abbrev full_io : Io (Unit {0})
full_io = record io { write_fault = λ path files. full_until_new (content_at (path_of conf) files) }

pub conf-IsSeparate : IsSeparate conf "20260101T000000"
unfolding path_of tmp_path backup_prefix
conf-IsSeparate = record {
  not_prefixed = refl;
  not_copy =
      λ e. false≢true ((eq_iff "/backups/nasos.conf.20260101T000000" "/etc/samba/nasos.conf").1 e);
  not_tmp =
      λ e. false≢true ((eq_iff "/etc/samba/.nasos.conf.nasos-tmp" "/etc/samba/nasos.conf").1 e);
}

full-Serves : Serves full_io conf "new"
unfolding string_eq
full-Serves = record {
  relabels = λ files s. refl;
  writes = λ path files c. rw c refl;
  unlinks = λ path files c. refl;
}

write_and_apply-Atomic_example :
    Atomic conf
      (hash "new")
      "new"
      (content_at (path_of conf) before)
      (write_and_apply full_io hash conf (some refuse) none "20260101T000000" "new" host)
write_and_apply-Atomic_example =
    write_and_apply-Atomic full_io hash conf (some refuse) none "20260101T000000" "new" host
      conf-IsSeparate full-Serves (λ files s. tt) tt

-- The write that the full disk refuses leaves a temporary file.
refused : write_and_apply full_io hash conf (some refuse) none "20260101T000000" "new" host ≡ (
  err (os_error other_kind "no space left"),
  record host {
    files =
        (
          "/etc/samba/nasos.conf",
          record { content = "old"; mode = 420; owner = none; group = none },
        )
        ∷ (
          "/etc/samba/.nasos.conf.nasos-tmp",
          record { content = "n"; mode = 420; owner = none; group = none },
        )
        ∷ [];
  },
)
unfolding write_and_apply prepare read_previous lookup_or write_atomic stage place relabel left_at
    no_result path_of tmp_path string_eq ◌>>=◌ and_then Dict.lookup Dict.insert Dict.erase
refused = refl

-- The content that the validator refuses is gone, and the backup stays.
rolled_back :
    (write_and_apply io hash conf (some refuse) none "20260101T000000" "new" host).1.files
    ≡ ("/etc/samba/nasos.conf", record { content = "old"; mode = 420; owner = none; group = none })
      ∷ (
        "/backups/nasos.conf.20260101T000000",
        record { content = "old"; mode = 420; owner = none; group = none },
      )
      ∷ []
unfolding write_and_apply prepare exchange read_previous lookup_or write_atomic stage place relabel
    left_at no_result restore erase_or backup_previous backup copy_previous copy_or unlink_all
    stale_backups with_prefix sorted run_validate after_validate use_tool path_of tmp_path
    backup_prefix string_eq ◌>>=◌ and_then Dict.lookup Dict.insert Dict.erase
rolled_back = refl

prepared :
    (prepare io conf "20260101T000000" "new" host).0
    ≡ ok (some (record { content = "old"; mode = 420; owner = none; group = none }))
unfolding prepare exchange read_previous lookup_or write_atomic stage place relabel no_result
    backup_previous backup copy_previous copy_or unlink_all stale_backups with_prefix sorted path_of
    tmp_path backup_prefix string_eq ◌>>=◌ and_then Dict.lookup Dict.insert Dict.erase
prepared = refl

write_and_apply-unvalidated_example :
    ((write_and_apply io hash conf (some crash) none "20260101T000000" "new" host).0
      ≡ err (other_error "no such program: testparm"))
    × (content_at
          (path_of conf)
          (write_and_apply io hash conf (some crash) none "20260101T000000" "new" host).1.files
        ≡ some "new")
write_and_apply-unvalidated_example =
    write_and_apply-unvalidated io hash conf crash none "20260101T000000" "new" host
      (some (record { content = "old"; mode = 420; owner = none; group = none }))
      (other_error "no such program: testparm") conf-IsSeparate prepared refl (λ d e. cc)

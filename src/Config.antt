-- ===== src/Config.antt =====
-- config.py: the settings that the modelled code reads.
use nas_os.Common.{String, ◌<>◌, Bool, true, false, ◌||◌, if◌then◌else◌}

pub data Mode : Type 0 where
  prod dev test : Mode

pub record Settings : Type 0 where
  pub mode : Mode
  pub state_dir : String
  pub volumes_root : String
  pub devdata_dir : String

unfoldable pub is_dev : Mode → Bool
is_dev dev = true
is_dev _ = false

unfoldable pub is_test : Mode → Bool
is_test test = true
is_test _ = false

unfoldable pub system_path : Settings → String → String
unfolding is_dev is_test
system_path settings real_path =
    if is_dev settings.mode || is_test settings.mode
    then settings.devdata_dir <> real_path
    else real_path

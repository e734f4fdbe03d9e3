-- ===== src/System/Runner.antt =====
-- The result of a command, of system/runner.py.
use nas_os.Common.{ℕ, String}

-- The return code of a process that a signal ended stands as a number other than 0.
pub record CommandResult : Type 0 where
  pub returncode : ℕ
  pub stdout : String
  pub stderr : String

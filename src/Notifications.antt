-- ===== src/Notifications.antt =====
-- A row of the table `notifications` of db/models.py, as the services fill it.
use nas_os.Common.{String}

pub record Notification : Type 0 where
  pub level : String
  pub title : String
  pub message : String
  pub source : String

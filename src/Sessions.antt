-- ===== src/Sessions.antt =====
-- The sessions of the web process: services/auth.py, and the checks of a request in web/deps.py.
-- The hash of a token is a parameter, the drawn token and the time are arguments. The table has its
-- unique column, the hash, as its key; times are seconds, as is the timeout.
pub mod Access
use nas_os.Common.{
  ℕ, ◌+◌, ◌*◌, String, Bool, not, Option, none, some, Result, ok, err, ltb, ◌==◌, string_eq,
  if◌then◌else◌,
}
use nas_os.Common.Dict
use nas_os.Common.Dict.{Dict}
use nas_os.Common.Text.{truthy}

pub record AuthLoginResult : Type 0 where
  pub uid : ℕ
  pub username : String
  pub role : String
  pub display_name : String

-- A row of the table `sessions`.
pub record Session : Type 0 where
  pub token_hash : String
  pub uid : ℕ
  pub username : String
  pub role : String
  pub created : ℕ
  pub last_seen : ℕ
  pub ip : Option String
  pub user_agent : Option String

abbrev pub Sessions : Type 0
Sessions = Dict String Session

-- `HTTPException`: its status code and detail.
abbrev pub HttpException : Type 0
HttpException = ℕ × String

-- `now - last_seen > idle_timeout`
unfoldable pub is_idle : ℕ → ℕ → Session → Bool
is_idle idle_timeout now row = ltb (row.last_seen + idle_timeout) now

unfoldable pub touch : ℕ → ℕ → String → Option Session → Sessions → Option Session × Sessions
unfolding is_idle
touch idle_timeout now key none db = (none, db)
touch idle_timeout now key (some row) db =
    if is_idle idle_timeout now row then (none, Dict.erase key db) else (
      some (record row { last_seen = now }),
      Dict.insert key (record row { last_seen = now }) db,
    )

unfoldable pub session_or_raise : Option Session → Result HttpException Session
session_or_raise none = err (401, "session expired")
session_or_raise (some row) = ok row

unfoldable pub admin_or_raise : Result HttpException Session → Result HttpException Session
unfolding string_eq
admin_or_raise (err e) = err e
admin_or_raise (ok row) =
    if not (row.role == "admin") then err (403, "admin role required") else ok row

module _ (hash_token : String → String) where
  unfoldable pub new_session :
      AuthLoginResult → Option String → Option String → String → ℕ → Session
  new_session identity ip user_agent token now = record {
    token_hash = hash_token token;
    uid = identity.uid;
    username = identity.username;
    role = identity.role;
    created = now;
    last_seen = now;
    ip = ip;
    user_agent = user_agent;
  }

  -- `create_session`, for a token whose hash is not in the table yet.
  unfoldable pub create_session :
      AuthLoginResult → Option String → Option String → String → ℕ → Sessions → String × Sessions
  unfolding new_session
  create_session identity ip user_agent token now db =
      (token, Dict.insert (hash_token token) (new_session identity ip user_agent token now) db)

  unfoldable pub resolve_session : ℕ → ℕ → String → Sessions → Option Session × Sessions
  unfolding touch
  resolve_session idle_timeout now token db =
      touch idle_timeout now (hash_token token) (Dict.lookup (hash_token token) db) db

  unfoldable pub destroy_session : String → Sessions → Sessions
  destroy_session token db = Dict.erase (hash_token token) db

  -- `get_current_session`, for the value of the cookie, if there is one.
  unfoldable pub get_current_session :
      ℕ → ℕ → Option String → Sessions → Result HttpException Session × Sessions
  unfolding session_or_raise string_eq
  get_current_session minutes now none db = (err (401, "not authenticated"), db)
  get_current_session minutes now (some token) db =
      if token == "" then (err (401, "not authenticated"), db) else (
        session_or_raise (resolve_session (minutes * 60) now token db).0,
        (resolve_session (minutes * 60) now token db).1,
      )

  unfoldable pub require_admin :
      ℕ → ℕ → Option String → Sessions → Result HttpException Session × Sessions
  unfolding admin_or_raise
  require_admin minutes now cookie db = (
    admin_or_raise (get_current_session minutes now cookie db).0,
    (get_current_session minutes now cookie db).1,
  )

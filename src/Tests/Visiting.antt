-- ===== src/Tests/Visiting.antt =====
-- Sessions of an administrator, with the token as its own hash.
use nas_os.Common.{ℕ, String, true, none, some, [], ◌∷◌, ok, ◌≡◌, ◌≤◌, ◌+◌, ◌*◌, refl, string_eq}
use nas_os.Common.Dict
use nas_os.Sessions.{
  AuthLoginResult, Session, Sessions, new_session, create_session, resolve_session, touch, is_idle,
  destroy_session, get_current_session, session_or_raise, admin_or_raise, require_admin,
}
use nas_os.Sessions.Access.{
  use_at, is_frequent, require_admin-needs, create_session-use_at, resolve_session-refused,
}

abbrev hash_token : String → String
hash_token token = token

abbrev root : AuthLoginResult
root = record { uid = 1000; username = "root"; role = "admin"; display_name = "" }

abbrev row : Session
row = record {
  token_hash = "t";
  uid = 1000;
  username = "root";
  role = "admin";
  created = 10;
  last_seen = 10;
  ip = none;
  user_agent = none;
}

abbrev db : Sessions
db = ("t", row) ∷ []

let_in : (require_admin hash_token 1 50 (some "t") db).0 ≡ ok (record row { last_seen = 50 })
unfolding require_admin admin_or_raise get_current_session session_or_raise resolve_session touch
    is_idle string_eq Dict.lookup Dict.insert
let_in = refl

require_admin-needs_example :
    (token : String) × (old : Session) × (some "t" ≡ some token)
    × (Dict.lookup token db ≡ some old)
    × (50 ≤ old.last_seen + 1 * 60)
    × (record row { last_seen = 50 } ≡ record old { last_seen = 50 })
    × (◌≡◌ {A = String} "admin" "admin")
require_admin-needs_example =
    require_admin-needs hash_token 1 50 (some "t") db (record row { last_seen = 50 }) let_in

frequent : is_frequent hash_token 60 10 (50 ∷ 100 ∷ []) ≡ true
unfolding is_frequent
frequent = refl

create_session-use_at_example :
    (last : ℕ) × (Dict.lookup "t" (
        use_at hash_token 60 "t"
          (50 ∷ 100 ∷ [])
          (create_session hash_token root none none "t" 10 []).1)
      ≡ some (record (new_session hash_token root none none "t" 10) { last_seen = last }))
create_session-use_at_example =
    create_session-use_at hash_token root none none "t" 60 10 (50 ∷ 100 ∷ []) [] frequent

refused : (resolve_session hash_token 60 100 "t" db).0 ≡ none
unfolding resolve_session touch is_idle string_eq Dict.lookup
refused = refl

resolve_session-refused_example :
    ((resolve_session hash_token 60 20 "t" (resolve_session hash_token 60 100 "t" db).1).0 ≡ none)
    × ((resolve_session hash_token 60 20 "t" (destroy_session hash_token "t" db)).0 ≡ none)
resolve_session-refused_example = resolve_session-refused hash_token 60 100 20 "t" db refused

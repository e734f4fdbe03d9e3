-- ===== src/Sessions/Access.antt =====
-- Who is let in, and for how long.
use nas_os.Common.{
  ℕ, ◌+◌, ◌*◌, ◌≤◌, String, Bool, true, false, Option, none, some, List, [], ◌∷◌, ok, ok-injective,
  leb, ◌&&◌, ◌≡◌, refl, sym, ap, ◌∙◌, arith, ◌==◌, string_eq, Bool-cases, inl, inr,
}
use mathlib.Core.Option.{some-injective}
use nas_os.Common.Dict
use nas_os.Common.Dict.{Dict, lookup-insert, lookup-erase}
use nas_os.Sessions.{
  AuthLoginResult, Session, Sessions, new_session, create_session, is_idle, touch, resolve_session,
  destroy_session, session_or_raise, get_current_session, admin_or_raise, require_admin,
}

module _ (hash_token : String → String) where
  touch-some :
      (timeout now : ℕ) (key : String) (found : Option Session) (db : Sessions) (row : Session)
      → (touch timeout now key found db).0 ≡ some row
      → (old : Session) × (found ≡ some old)
        × (now ≤ old.last_seen + timeout)
        × (row ≡ record old { last_seen = now })
  unfolding touch is_idle
  touch-some timeout now key none db row h = cc
  touch-some timeout now key (some old) db row h = elim (Bool-cases (is_idle timeout now old)) [
    | inl e ↦ let h' = rw e at h in cc
    | inr e ↦ (old, refl, ground arith, sym (some-injective _ _ (rw e at h)))
  ]

  admin_or_raise-ok :
      (found : Option Session) (row : Session)
      → admin_or_raise (session_or_raise found) ≡ ok row
      → (found ≡ some row) × (row.role ≡ "admin")
  unfolding admin_or_raise session_or_raise
  admin_or_raise-ok none row h = cc
  admin_or_raise-ok (some old) row h = elim (Bool-cases (old.role == "admin")) [
    | inl e ↦
        let same : old ≡ row = ok-injective (rw e at h) in
        let admin : old.role ≡ "admin" = ground arith in
        (ap some same, ap (λ (s : Session). s.role) (sym same) ∙ admin)
    | inr e ↦ let h' = rw e at h in cc
  ]

  -- A handler that asks for an administrator is reached only if the request has a token whose hash
  -- is in the table, in a row with the role admin that was last seen within the idle timeout; the
  -- session it is given is this row, seen now.
  pub require_admin-needs :
      (minutes now : ℕ) (cookie : Option String) (db : Sessions) (row : Session)
      → (require_admin hash_token minutes now cookie db).0 ≡ ok row
      → (token : String) × (old : Session) × (cookie ≡ some token)
        × (Dict.lookup (hash_token token) db ≡ some old)
        × (now ≤ old.last_seen + minutes * 60)
        × (row ≡ record old { last_seen = now })
        × (row.role ≡ "admin")
  unfolding require_admin admin_or_raise get_current_session resolve_session
  require_admin-needs minutes now none db row h = cc
  require_admin-needs minutes now (some token) db row h = elim (Bool-cases (token == "")) [
    | inl e ↦ let h' = rw e at h in cc
    | inr e ↦
        let (found, admin) =
          admin_or_raise-ok (resolve_session hash_token (minutes * 60) now token db).0 row
            (rw e at h) in
        let (old, at, l, same) =
          touch-some (minutes * 60) now (hash_token token) (Dict.lookup (hash_token token) db) db
            row found in
        (token, old, refl, at, l, same, admin)
  ]

  resolve_session-live :
      (timeout now : ℕ) (token : String) (db : Sessions) (row : Session)
      → Dict.lookup (hash_token token) db ≡ some row
      → now ≤ row.last_seen + timeout
      → resolve_session hash_token timeout now token db ≡ (
        some (record row { last_seen = now }),
        Dict.insert (hash_token token) (record row { last_seen = now }) db,
      )
  unfolding resolve_session touch is_idle
  resolve_session-live timeout now token db row h l =
      let live : is_idle timeout now row ≡ false = ground arith in rw (h, live) refl

  -- The table after a token was used at a list of times.
  unfoldable pub use_at : ℕ → String → List ℕ → Sessions → Sessions
  use_at timeout token [] db = db
  use_at timeout token (now ∷ times) db =
      use_at timeout token times (resolve_session hash_token timeout now token db).1

  -- No time of a list is later than the one before it, or the first than a given one, by more
  -- than the timeout.
  unfoldable pub is_frequent : ℕ → ℕ → List ℕ → Bool
  is_frequent timeout last [] = true
  is_frequent timeout last (now ∷ times) = leb now (last + timeout) && is_frequent timeout now times

  lookup-use_at :
      (timeout : ℕ) (token : String) (times : List ℕ) (db : Sessions) (row : Session)
      → Dict.lookup (hash_token token) db ≡ some row
      → is_frequent timeout row.last_seen times ≡ true
      → (last : ℕ) × (Dict.lookup (hash_token token) (use_at timeout token times db)
          ≡ some (record row { last_seen = last }))
  unfolding use_at is_frequent
  lookup-use_at timeout token [] db row h f = (row.last_seen, h)
  lookup-use_at timeout token (now ∷ times) db row h f =
      let l : now ≤ row.last_seen + timeout = ground arith in
      let f' : is_frequent timeout now times ≡ true = ground arith in
      let seen : Session = record row { last_seen = now } in
      let at : Dict.lookup (hash_token token) (Dict.insert (hash_token token) seen db) ≡ some seen =
        ground (arith, lookup-insert (hash_token token) (hash_token token) seen db) in
      rw (resolve_session-live timeout now token db row h l)
        (lookup-use_at timeout token times (Dict.insert (hash_token token) seen db) seen at f')

  -- A session that was created, and whose token is then used at times none of which is later than
  -- the one before by more than the idle timeout, is still in the table, with the user and the
  -- role that were given at the login.
  pub create_session-use_at :
      (identity : AuthLoginResult) (ip user_agent : Option String) (token : String)
      (timeout created : ℕ) (times : List ℕ) (db : Sessions)
      → is_frequent timeout created times ≡ true
      → (last : ℕ) × (Dict.lookup (hash_token token) (
            use_at timeout token times
              (create_session hash_token identity ip user_agent token created db).1)
          ≡ some (record (new_session hash_token identity ip user_agent token created) {
            last_seen = last;
          }))
  unfolding create_session new_session
  create_session-use_at identity ip user_agent token timeout created times db f =
      let row = new_session hash_token identity ip user_agent token created in
      lookup-use_at timeout token times (Dict.insert (hash_token token) row db) row
        (ground (arith, lookup-insert (hash_token token) (hash_token token) row db)) f

  touch-none :
      (timeout now : ℕ) (key : String) (found : Option Session) (db : Sessions)
      → Dict.lookup key db ≡ found
      → (touch timeout now key found db).0 ≡ none
      → Dict.lookup key (touch timeout now key found db).1 ≡ none
  unfolding touch
  touch-none timeout now key none db at h = at
  touch-none timeout now key (some row) db at h = elim (Bool-cases (is_idle timeout now row)) [
    | inl e ↦ rw e (ground (arith, lookup-erase key key db))
    | inr e ↦ let h' = rw e at h in cc
  ]

  resolve_session-absent :
      (timeout now : ℕ) (token : String) (db : Sessions)
      → Dict.lookup (hash_token token) db ≡ none
      → (resolve_session hash_token timeout now token db).0 ≡ none
  unfolding resolve_session touch
  resolve_session-absent timeout now token db h = rw h refl

  refused_absent :
      (timeout now : ℕ) (token : String) (db : Sessions)
      → (resolve_session hash_token timeout now token db).0 ≡ none
      → Dict.lookup (hash_token token) (resolve_session hash_token timeout now token db).1 ≡ none
  unfolding resolve_session
  refused_absent timeout now token db h =
      touch-none timeout now (hash_token token) (Dict.lookup (hash_token token) db) db refl h

  destroyed_absent :
      (token : String) (db : Sessions)
      → Dict.lookup (hash_token token) (destroy_session hash_token token db) ≡ none
  unfolding destroy_session
  destroyed_absent token db = ground (arith, lookup-erase (hash_token token) (hash_token token) db)

  -- A token that was refused once is refused at any time after that, and so is a token whose
  -- session was destroyed, as long as no session is created for it.
  pub resolve_session-refused :
      (timeout now later : ℕ) (token : String) (db : Sessions)
      → (resolve_session hash_token timeout now token db).0 ≡ none
      → ((resolve_session hash_token timeout later token
            (resolve_session hash_token timeout now token db).1).0
          ≡ none)
        × ((resolve_session hash_token timeout later token (destroy_session hash_token token db)).0
            ≡ none)
  resolve_session-refused timeout now later token db h = (
    resolve_session-absent timeout later token (resolve_session hash_token timeout now token db).1
        (refused_absent timeout now token db h),
    resolve_session-absent timeout later token (destroy_session hash_token token db)
        (destroyed_absent token db),
  )

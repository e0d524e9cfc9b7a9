-- ===== src/Auth/Spent.antt =====
-- A refresh token that is used up.
use sagiton.Prelude.{
  ℕ, ◌≡◌, refl, Bool, true, false, ◌&&◌, Option, List, [], ◌∷◌, arith, ltb, Bool-cases,
  Option-cases, inl, inr,
}
use sagiton.Text.{Text, trim, text_eq, text_eq_iff}
use sagiton.Database.Table.{find_where, exists_where, update_where}
use sagiton.Schema.{Env, Db, SessionRow}
use sagiton.Auth.{
  AuthPorts, SessionContext, has_hash, is_open, revoke, insert_session, create_user,
  revoke_old_refresh_token, rotate_refresh_session, revoke_by_refresh_hash, register, login,
  issue_and_persist_tokens, refresh, logout, find_user_by_login_identity, build_refresh_expiry,
}

-- A session has the hash, and every session that has it is revoked.
abbrev pub IsSpent : Text → List SessionRow → Type 0
IsSpent hash rows =
    (exists_where (has_hash hash) rows ≡ true) × (exists_where (is_open hash) rows ≡ false)

pub has_hash-update :
    (hash : Text) (q : SessionRow → Bool) (now : ℕ) (rows : List SessionRow)
    → exists_where (has_hash hash) (update_where q (revoke now) rows)
      ≡ exists_where (has_hash hash) rows
has_hash-update hash q now [] = refl
has_hash-update hash q now (s ∷ rows) = ground (arith, has_hash-update hash q now rows)

pub is_open-update :
    (hash : Text) (q : SessionRow → Bool) (now : ℕ) (rows : List SessionRow)
    → exists_where (is_open hash) rows ≡ false
    → exists_where (is_open hash) (update_where q (revoke now) rows) ≡ false
is_open-update hash q now [] h = refl
is_open-update hash q now (s ∷ rows) h = ground (arith, is_open-update hash q now rows)

pub IsSpent-update :
    (hash : Text) (q : SessionRow → Bool) (now : ℕ) (rows : List SessionRow)
    → IsSpent hash rows
    → IsSpent hash (update_where q (revoke now) rows)
IsSpent-update hash q now rows h =
    (rw (has_hash-update hash q now rows) h.0, is_open-update hash q now rows h.1)

-- A session with another hash changes nothing.
differs :
    (hash other : Text) (rows : List SessionRow)
    → exists_where (has_hash hash) rows ≡ true
    → exists_where (has_hash other) rows ≡ false
    → text_eq other hash ≡ false
differs hash other rows h k = elim (Bool-cases (text_eq other hash)) [
  | inr e ↦ e
  | inl e ↦ (let same = (text_eq_iff other hash).0 e in absurd (grind (arith, h, k, same)))
]

pub insert_session-IsSpent :
    (hash : Text) (id user_id : ℕ) (other : Text) (expires : ℕ) (context : SessionContext) (db : Db)
    → IsSpent hash db.user_sessions
    → IsSpent hash (insert_session id user_id other expires context db).1.user_sessions
unfolding insert_session
insert_session-IsSpent hash id user_id other expires context db h =
    elim (Bool-cases (exists_where (has_hash other) db.user_sessions)) [
      | inl e ↦ (ground arith, ground arith)
      | inr e ↦ (let d = differs hash other db.user_sessions h.0 e in (ground arith, ground arith))
    ]

module _ (ports : AuthPorts) where
  -- One call of a client.
  pub data Step : Db → Db → Type 0 where
    register_step :
        (env : Env) (username : Text) (email : Option Text) (password : Text) (db : Db)
        → Step db (register ports env username email password db).1
    login_step :
        (env : Env) (fresh identity password : Text) (context : SessionContext) (db : Db)
        → Step db (login ports env fresh identity password context db).1
    refresh_step :
        (env : Env) (fresh token : Text) (context : SessionContext) (db : Db)
        → Step db (refresh ports env fresh token context db).1
    logout_step : (env : Env) (token : Text) (db : Db) → Step db (logout ports env token db).1

  pub data Reach (s : Db) : Db → Type 0 where
    here : Reach s s
    next : {t u : Db} → Reach s t → Step t u → Reach s u

  register_sessions :
      (env : Env) (username : Text) (email : Option Text) (password : Text) (db : Db)
      → (register ports env username email password db).1.user_sessions ≡ db.user_sessions
  unfolding register create_user
  register_sessions env username email password db = ground arith

  issue-IsSpent :
      (hash : Text) (env : Env) (fresh : Text) (u : ℕ) (context : SessionContext) (db : Db)
      → IsSpent hash db.user_sessions
      → IsSpent hash (issue_and_persist_tokens ports env fresh u context db).1.user_sessions
  unfolding issue_and_persist_tokens
  issue-IsSpent hash env fresh u context db h =
      let after =
        insert_session-IsSpent hash (env.new_v4 0) u (ports.hash_refresh_token fresh)
          (build_refresh_expiry env) context db h in
      (ground (arith, after.0), ground (arith, after.1))

  login-IsSpent :
      (hash : Text) (env : Env) (fresh identity password : Text) (context : SessionContext)
      (db : Db)
      → IsSpent hash db.user_sessions
      → IsSpent hash (login ports env fresh identity password context db).1.user_sessions
  unfolding login
  login-IsSpent hash env fresh identity password context db h =
      elim (Option-cases (find_user_by_login_identity (trim identity) db)) [
        | inl e ↦ (ground arith, ground arith)
        | inr (user, e) ↦
            (let after = issue-IsSpent hash env fresh user.id context db h in
              (ground (arith, after.0), ground (arith, after.1)))
      ]

  rotate-IsSpent :
      (hash : Text) (env : Env) (old fresh : Text) (expires : ℕ) (context : SessionContext)
      (db : Db)
      → IsSpent hash db.user_sessions
      → IsSpent hash (rotate_refresh_session env old fresh expires context db).1.user_sessions
  unfolding rotate_refresh_session revoke_old_refresh_token
  rotate-IsSpent hash env old fresh expires context db h =
      let q : SessionRow → Bool = λ s. is_open old s && ltb env.db_now s.expires_at in
      elim (Option-cases (find_where q db.user_sessions)) [
        | inl e ↦ (ground arith, ground arith)
        | inr (s, e) ↦
            (let revoked : Db = record db {
              user_sessions = update_where q (revoke env.db_now) db.user_sessions;
            } in
              let after =
                insert_session-IsSpent hash (env.new_v4 0) s.user_id fresh expires context revoked
                  (IsSpent-update hash q env.db_now db.user_sessions h) in
              (ground (arith, after.0), ground (arith, after.1)))
      ]

  refresh-IsSpent :
      (hash : Text) (env : Env) (fresh token : Text) (context : SessionContext) (db : Db)
      → IsSpent hash db.user_sessions
      → IsSpent hash (refresh ports env fresh token context db).1.user_sessions
  unfolding refresh
  refresh-IsSpent hash env fresh token context db h =
      let after =
        rotate-IsSpent hash env (ports.hash_refresh_token (trim token))
          (ports.hash_refresh_token fresh) (build_refresh_expiry env) context db h in
      (ground (arith, after.0), ground (arith, after.1))

  logout-IsSpent :
      (hash : Text) (env : Env) (token : Text) (db : Db)
      → IsSpent hash db.user_sessions
      → IsSpent hash (logout ports env token db).1.user_sessions
  unfolding logout revoke_by_refresh_hash
  logout-IsSpent hash env token db h =
      let after =
        IsSpent-update hash (is_open (ports.hash_refresh_token (trim token))) env.db_now
          db.user_sessions h in
      (ground (arith, after.0), ground (arith, after.1))

  pub Reach-IsSpent :
      (hash : Text) {s t : Db}
      → IsSpent hash s.user_sessions
      → Reach s t
      → IsSpent hash t.user_sessions
  Reach-IsSpent hash h here = h
  Reach-IsSpent hash h (next r (register_step env username email password db)) =
      rw (register_sessions env username email password db) (Reach-IsSpent hash h r)
  Reach-IsSpent hash h (next r (login_step env fresh identity password context db)) =
      login-IsSpent hash env fresh identity password context db (Reach-IsSpent hash h r)
  Reach-IsSpent hash h (next r (refresh_step env fresh token context db)) =
      refresh-IsSpent hash env fresh token context db (Reach-IsSpent hash h r)
  Reach-IsSpent hash h (next r (logout_step env token db)) =
      logout-IsSpent hash env token db (Reach-IsSpent hash h r)

-- ===== src/Auth/SingleUse.antt =====
-- A refresh token serves once.
use sagiton.Prelude.{
  ℕ, ◌≡◌, refl, sym, ◌∙◌, Bool, true, false, ◌&&◌, none, some, List, [], ◌∷◌, arith, ltb,
  Bool-cases, Option-cases, inl, inr,
}
use sagiton.Text.{Text, trim, text_eq, text_eq_iff, is_empty}
use sagiton.Shared.{is_ok}
use sagiton.Database.Table.{find_where, exists_where, update_where, All}
use sagiton.Schema.{Env, Db, SessionRow}
use sagiton.Auth.{
  AuthPorts, SessionContext, has_hash, is_open, revoke, revoke_old_refresh_token,
  rotate_refresh_session, revoke_by_refresh_hash, refresh, logout, build_refresh_expiry,
}
use sagiton.Auth.Spent.{
  IsSpent, Reach, Reach-IsSpent, insert_session-IsSpent, has_hash-update, is_open-update,
}

-- UNIQUE (refresh_token_hash)
abbrev pub UniqueHashes : List SessionRow → Type 0
UniqueHashes [] = Unit
UniqueHashes (s ∷ rows) =
    All (λ x. text_eq s.refresh_token_hash x.refresh_token_hash ≡ false) rows × UniqueHashes rows

-- An open session that has not expired.
abbrev usable : Text → ℕ → SessionRow → Bool
usable hash now s = is_open hash s && ltb now s.expires_at

no_other :
    (hash : Text) (s : SessionRow) (rows : List SessionRow)
    → has_hash hash s ≡ true
    → All (λ x. text_eq s.refresh_token_hash x.refresh_token_hash ≡ false) rows
    → exists_where (has_hash hash) rows ≡ false
no_other hash s [] h a = refl
no_other hash s (x ∷ rows) h a = elim (Bool-cases (has_hash hash x)) [
  | inr e ↦ ground (arith, no_other hash s rows h a.1, e)
  | inl e ↦
      (let p = (text_eq_iff s.refresh_token_hash hash).0 h in
        let q = (text_eq_iff x.refresh_token_hash hash).0 e in
        let same = (text_eq_iff s.refresh_token_hash x.refresh_token_hash).1 (p ∙ sym q) in
        absurd (ground (arith, same, a.0)))
]

none_open :
    (hash : Text) (rows : List SessionRow)
    → exists_where (has_hash hash) rows ≡ false
    → exists_where (is_open hash) rows ≡ false
none_open hash [] h = refl
none_open hash (s ∷ rows) h = ground (arith, none_open hash rows)

none-usable :
    (hash : Text) (now : ℕ) (rows : List SessionRow)
    → exists_where (is_open hash) rows ≡ false
    → find_where (usable hash now) rows ≡ none
none-usable hash now [] h = refl
none-usable hash now (s ∷ rows) h = ground (arith, none-usable hash now rows)

usable-has_hash :
    (hash : Text) (now : ℕ) (s : SessionRow) (rows : List SessionRow)
    → find_where (usable hash now) rows ≡ some s
    → exists_where (has_hash hash) rows ≡ true
usable-has_hash hash now s [] h = absurd (ground arith)
usable-has_hash hash now s (x ∷ rows) h = ground (arith, usable-has_hash hash now s rows)

-- Revoking the usable session of a hash leaves no open one.
revoke-is_open :
    (hash : Text) (now : ℕ) (s : SessionRow) (rows : List SessionRow)
    → UniqueHashes rows
    → find_where (usable hash now) rows ≡ some s
    → exists_where (is_open hash) (update_where (usable hash now) (revoke now) rows) ≡ false
revoke-is_open hash now s [] u h = absurd (ground arith)
revoke-is_open hash now s (x ∷ rows) u h = elim (Bool-cases (has_hash hash x)) [
  | inr e ↦ ground (arith, revoke-is_open hash now s rows u.1)
  | inl e ↦
      (let rest = none_open hash rows (no_other hash x rows e u.0) in
        ground (
          arith,
          none-usable hash now rows rest,
          is_open-update hash (usable hash now) now rows rest,
        ))
]

rotate-spends :
    (env : Env) (old fresh : Text) (expires : ℕ) (context : SessionContext) (db : Db)
    → UniqueHashes db.user_sessions
    → is_ok (rotate_refresh_session env old fresh expires context db).0 ≡ true
    → IsSpent old (rotate_refresh_session env old fresh expires context db).1.user_sessions
unfolding rotate_refresh_session revoke_old_refresh_token
rotate-spends env old fresh expires context db u h =
    let q : SessionRow → Bool = usable old env.db_now in
    elim (Option-cases (find_where q db.user_sessions)) [
      | inl e ↦ absurd (ground arith)
      | inr (s, e) ↦
          (let revoked : Db = record db {
            user_sessions = update_where q (revoke env.db_now) db.user_sessions;
          } in
            let exists : exists_where (has_hash old) revoked.user_sessions ≡ true =
              has_hash-update old q env.db_now db.user_sessions
              ∙ usable-has_hash old env.db_now s db.user_sessions e in
            let after =
              insert_session-IsSpent old (env.new_v4 0) s.user_id fresh expires context revoked
                (exists, revoke-is_open old env.db_now s db.user_sessions u e) in
            (ground (arith, after.0), ground (arith, after.1)))
    ]

all_revoked :
    (hash : Text) (now : ℕ) (rows : List SessionRow)
    → exists_where (is_open hash) (update_where (is_open hash) (revoke now) rows) ≡ false
all_revoked hash now [] = refl
all_revoked hash now (s ∷ rows) = ground (arith, all_revoked hash now rows)

module _ (ports : AuthPorts) where
  refresh-spends :
      (env : Env) (fresh token : Text) (context : SessionContext) (db : Db)
      → UniqueHashes db.user_sessions
      → is_ok (refresh ports env fresh token context db).0 ≡ true
      → IsSpent
          (ports.hash_refresh_token (trim token))
          (refresh ports env fresh token context db).1.user_sessions
  unfolding refresh
  refresh-spends env fresh token context db u h =
      let after =
        rotate-spends env (ports.hash_refresh_token (trim token)) (ports.hash_refresh_token fresh)
          (build_refresh_expiry env) context db u (ground arith) in
      (ground (arith, after.0), ground (arith, after.1))

  spent_refused :
      (env : Env) (fresh token : Text) (context : SessionContext) (db : Db)
      → IsSpent (ports.hash_refresh_token (trim token)) db.user_sessions
      → is_ok (refresh ports env fresh token context db).0 ≡ false
  unfolding refresh rotate_refresh_session revoke_old_refresh_token
  spent_refused env fresh token context db h =
      let refused =
        none-usable (ports.hash_refresh_token (trim token)) env.db_now db.user_sessions h.1 in
      ground (arith, refused)

  -- A refresh token that was exchanged once is refused ever after, whatever users register, log in,
  -- refresh and log out in between, if the hashes of the sessions were unique.
  pub refresh_single_use :
      (env : Env) (fresh token : Text) (context : SessionContext) (db : Db)
      → UniqueHashes db.user_sessions
      → is_ok (refresh ports env fresh token context db).0 ≡ true
      → {later : Db} → Reach ports (refresh ports env fresh token context db).1 later
      → (env' : Env) (fresh' : Text) (context' : SessionContext)
      → is_ok (refresh ports env' fresh' token context' later).0 ≡ false
  refresh_single_use env fresh token context db u h {later} r env' fresh' context' =
      spent_refused env' fresh' token context' later (
        Reach-IsSpent ports (ports.hash_refresh_token (trim token))
          (refresh-spends env fresh token context db u h) r)

  logout-spends :
      (env : Env) (token : Text) (db : Db)
      → is_empty (trim token) ≡ false
      → exists_where (has_hash (ports.hash_refresh_token (trim token))) db.user_sessions ≡ true
      → IsSpent (ports.hash_refresh_token (trim token)) (logout ports env token db).1.user_sessions
  unfolding logout revoke_by_refresh_hash
  logout-spends env token db e h =
      let hash = ports.hash_refresh_token (trim token) in
      let kept = has_hash-update hash (is_open hash) env.db_now db.user_sessions in
      let closed = all_revoked hash env.db_now db.user_sessions in
      (ground (arith, kept, h), ground (arith, closed))

  -- After a logout with the refresh token of a session, the token is refused ever after, whatever
  -- users register, log in, refresh and log out in between.
  pub logout_final :
      (env : Env) (token : Text) (db : Db)
      → is_empty (trim token) ≡ false
      → exists_where (has_hash (ports.hash_refresh_token (trim token))) db.user_sessions ≡ true
      → {later : Db} → Reach ports (logout ports env token db).1 later
      → (env' : Env) (fresh : Text) (context : SessionContext)
      → is_ok (refresh ports env' fresh token context later).0 ≡ false
  logout_final env token db e h {later} r env' fresh context =
      spent_refused env' fresh token context later (
        Reach-IsSpent ports (ports.hash_refresh_token (trim token)) (logout-spends env token db e h)
          r)

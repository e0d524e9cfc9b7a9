-- ===== src/Auth/Tests.antt =====
-- Sessions with ports that compute.
use sagiton.Prelude.{◌*◌, length, arith, ◌+◌, ◌≡◌, refl, none, [], ◌∷◌, false}
use sagiton.Text.{text_eq, trim}
use sagiton.Schema.{Env, Db, empty_db}
use sagiton.Shared.{ok, is_ok}
use sagiton.Auth.{
  AuthPorts, SessionContext, refresh, logout, rotate_refresh_session, revoke_old_refresh_token,
  insert_session,
}
use sagiton.Auth.Hex.{to_hex, from_hex, from_hex-to_hex}
use sagiton.Auth.Spent.{here, next, refresh_step}
use sagiton.Auth.SingleUse.{refresh_single_use, logout_final}

abbrev env : Env
env = record { db_now = 10; now_utc = 10; new_v4 = λ i. 100 + i }

-- A hash that is the token behind a mark, and tokens that are the id of the user.
abbrev ports : AuthPorts
ports = record {
  hash_password = λ s. ok s;
  verify_password = λ s h. ok (text_eq s h);
  issue_access_token = λ u. ok (u ∷ []);
  hash_refresh_token = λ s. 35 ∷ s;
  to_lowercase = λ s. s;
}

abbrev no_context : SessionContext
no_context = record { user_agent = none; ip = none }

abbrev one_session : Db
one_session = record empty_db {
  users = record { id = 1; username = 65 ∷ []; email = none; password_hash = [] } ∷ [];
  user_sessions =
      record {
        id = 50;
        user_id = 1;
        refresh_token_hash = 35 ∷ 70 ∷ [];
        expires_at = 90;
        revoked_at = none;
        user_agent = none;
        ip = none;
      }
      ∷ [];
}

abbrev rotated : Db
rotated = (refresh ports env (71 ∷ []) (70 ∷ []) no_context one_session).1

abbrev later_env : Env
later_env = record { db_now = 20; now_utc = 20; new_v4 = λ i. 110 + i }

abbrev twice : Db
twice = (refresh ports later_env (72 ∷ []) (71 ∷ []) no_context rotated).1

refresh_single_use_example :
    is_ok (refresh ports later_env (73 ∷ []) (70 ∷ []) no_context twice).0 ≡ false
unfolding refresh rotate_refresh_session revoke_old_refresh_token insert_session text_eq trim
refresh_single_use_example =
    refresh_single_use ports env (71 ∷ []) (70 ∷ []) no_context one_session (tt, tt) refl
      {later = twice} (next here (refresh_step later_env (72 ∷ []) (71 ∷ []) no_context rotated))
      later_env (73 ∷ []) no_context

logout_final_example :
    is_ok
      (refresh ports later_env
        (73 ∷ [])
        (70 ∷ [])
        no_context
        (logout ports env (70 ∷ []) one_session).1).0
    ≡ false
unfolding text_eq trim
logout_final_example =
    logout_final ports env (70 ∷ []) one_session refl refl
      {later = (logout ports env (70 ∷ []) one_session).1} here later_env (73 ∷ []) no_context

from_hex-to_hex_example :
    (from_hex (to_hex (0 ∷ 171 ∷ 255 ∷ [])) ≡ 0 ∷ 171 ∷ 255 ∷ [])
    × (length (to_hex (0 ∷ 171 ∷ 255 ∷ [])) ≡ 2 * 3)
from_hex-to_hex_example =
    from_hex-to_hex (0 ∷ 171 ∷ 255 ∷ []) (omega arith, (omega arith, (omega arith, tt)))

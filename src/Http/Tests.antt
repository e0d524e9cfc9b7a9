-- ===== src/Http/Tests.antt =====
-- Requests to the handlers, at a concrete database.
use sagiton.Prelude.{arith, ℕ, ◌+◌, ◌≡◌, true, false, ◌||◌, none, some, [], ◌∷◌}
use sagiton.Text.{Text}
use sagiton.Shared.{ok}
use sagiton.Database.Table.{All}
use sagiton.Schema.{Env, Db, UserRecord, empty_db}
use sagiton.Http.{AppState, Header}
use sagiton.Http.Calls.{serve, is_accept, create_direct_thread}
use sagiton.Http.Effects.Handlers.{IsAnnounced}
use sagiton.Http.Effects.{is_silent, serve_unauthenticated, serve_announces}

abbrev env : Env
env = record { db_now = 10; now_utc = 10; new_v4 = λ i. 100 + i }

abbrev user : ℕ → UserRecord
user id = record { id = id; username = id ∷ []; email = none; password_hash = [] }

abbrev two_users : Db
two_users = record empty_db { users = user 1 ∷ user 2 ∷ [] }

-- A token is the id of its user.
abbrev head_of : Text → ℕ
head_of [] = 0
head_of (c ∷ s) = c

abbrev state : AppState
state = record {
  verify_access_token = λ token. ok (head_of token);
  allow_rate_limit = λ key limit window_secs. true;
  rfc3339 = λ t. none;
}

-- "Bearer " and the token of user 1, and the same without the scheme.
abbrev signed : Header
signed = some (some (66 ∷ 101 ∷ 97 ∷ 114 ∷ 101 ∷ 114 ∷ 32 ∷ 1 ∷ []))

abbrev unsigned : Header
unsigned = some (some (1 ∷ []))

serve_unauthenticated_example :
    serve state unsigned (create_direct_thread env 2) two_users ≡ (false, two_users, [])
serve_unauthenticated_example =
    serve_unauthenticated state unsigned (create_direct_thread env 2) two_users
      λ token same shown. absurd (ground arith)

serve_announces_example :
    All IsAnnounced (serve state signed (create_direct_thread env 2) two_users).2
    × (((serve state signed (create_direct_thread env 2) two_users).0
          || (is_accept (create_direct_thread env 2)
              || is_silent (serve state signed (create_direct_thread env 2) two_users).2))
        ≡ true)
serve_announces_example = serve_announces state signed (create_direct_thread env 2) two_users

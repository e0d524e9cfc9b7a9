-- ===== src/Conversation/Direct/Steps.antt =====
-- The calls that create, open and remove direct threads, as steps of the database.
use sagiton.Prelude.{ℕ}
use sagiton.Schema.{Env, Db}
use sagiton.Friendship.{accept_friend_request}
use sagiton.Conversation.Direct.{create_direct_thread, accept_direct_thread, reject_direct_thread}

-- One call of the user `u`.
pub data Step (u : ℕ) : Db → Db → Type 0 where
  create_step : (env : Env) (peer : ℕ) (db : Db) → Step u db (create_direct_thread env u peer db).1
  accept_step : (env : Env) (id : ℕ) (db : Db) → Step u db (accept_direct_thread env u id db).1
  reject_step : (id : ℕ) (db : Db) → Step u db (reject_direct_thread u id db).1
  befriend_step :
      (env : Env) (friend : ℕ) (db : Db) → Step u db (accept_friend_request env u friend db).1

pub data Reach (start : Db) : Db → Type 0 where
  start : Reach start start
  next : {db db' : Db} (u : ℕ) → Reach start db → Step u db db' → Reach start db'

-- ===== src/Conversation/Group/Steps.antt =====
-- The operations on groups that write, as steps of the database.
use sagiton.Prelude.{ℕ, Option, List}
use sagiton.Prelude.Int.{ℤ}
use sagiton.Schema.{Env, Db}
use sagiton.Text.{Text}
use sagiton.Conversation.Group.{create_group_thread, add_group_member, leave_group}
use sagiton.Conversation.Group.Invite.{create_group_invite, join_group_invite}

-- One call of an operation that writes.
pub data Step : Db → Db → Type 0 where
  create_group_thread_step :
      (env : Env) (u : ℕ) (name : Text) (members : List ℕ) (db : Db)
      → Step db (create_group_thread env u name members db).1
  add_group_member_step : (a t u : ℕ) (db : Db) → Step db (add_group_member a t u db).1
  leave_group_step : (u t : ℕ) (db : Db) → Step db (leave_group u t db).1
  create_group_invite_step :
      (env : Env) (token : Text) (u t : ℕ) (expires : Option ℕ) (max_uses : Option ℤ) (db : Db)
      → Step db (create_group_invite env token u t expires max_uses db).1
  join_group_invite_step :
      (env : Env) (u : ℕ) (token : Text) (db : Db) → Step db (join_group_invite env u token db).1

pub data Reach (start : Db) : Db → Type 0 where
  start : Reach start start
  next : {db db' : Db} → Reach start db → Step db db' → Reach start db'

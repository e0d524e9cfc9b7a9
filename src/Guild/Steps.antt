-- ===== src/Guild/Steps.antt =====
-- The operations on guilds that write, as steps of the database.
use sagiton.Prelude.{ℕ, Option}
use sagiton.Prelude.Int.{ℤ}
use sagiton.Schema.{Env, Db}
use sagiton.Text.{Text}
use sagiton.Guild.{
  create_guild, join_guild, leave_guild, create_channel, create_guild_invite, join_guild_invite,
}

-- One call of an operation that writes.
pub data Step : Db → Db → Type 0 where
  create_guild_step :
      (env : Env) (u : ℕ) (name : Text) (db : Db) → Step db (create_guild env u name db).1
  join_guild_step : (u g : ℕ) (db : Db) → Step db (join_guild u g db).1
  leave_guild_step : (u g : ℕ) (db : Db) → Step db (leave_guild u g db).1
  create_channel_step :
      (env : Env) (u g : ℕ) (name : Text) (db : Db) → Step db (create_channel env u g name db).1
  create_guild_invite_step :
      (env : Env) (token : Text) (u g : ℕ) (expires : Option ℕ) (max_uses : Option ℤ) (db : Db)
      → Step db (create_guild_invite env token u g expires max_uses db).1
  join_guild_invite_step :
      (env : Env) (u : ℕ) (token : Text) (db : Db) → Step db (join_guild_invite env u token db).1

pub data Reach (start : Db) : Db → Type 0 where
  start : Reach start start
  next : {db db' : Db} → Reach start db → Step db db' → Reach start db'

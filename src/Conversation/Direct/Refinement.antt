-- ===== src/Conversation/Direct/Refinement.antt =====
-- The calls on direct threads implement the protocol.
use sagiton.Prelude.{ℕ, Bool, ◌∷◌}
use sagiton.Schema.{Env, Db, ThreadRow}
use sagiton.Friendship.{sort_pair}
use sagiton.Conversation.Direct.{new_direct_thread}
use sagiton.Conversation.Direct.Protocol.{Move, phase, befriended}
use sagiton.Conversation.Direct.Keys.{IsKeyed}

-- A call keeps the keys, and does to every thread what the protocol allows to the caller.
abbrev pub Refines : ℕ → Db → Db → Type 0
Refines u db db' =
    IsKeyed db' × ((id : ℕ) → Move u (phase id db) (befriended db) (phase id db') (befriended db'))

module _ (env : Env) (u peer : ℕ) (db : Db) (c : IsKeyed db) where
  abbrev new_thread : Bool → ThreadRow
  new_thread friends = new_direct_thread env u (sort_pair u peer) friends

  abbrev with_new : Bool → Db
  with_new friends = record db { threads = new_thread friends ∷ db.threads }

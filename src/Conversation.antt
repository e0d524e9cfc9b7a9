-- ===== src/Conversation.antt =====
-- backend/src/application/use_cases/conversation.rs over
-- backend/src/infrastructure/db/repositories/conversation_repository.rs: what direct threads, groups
-- and their messages share. The operations are in the child modules.
pub mod Direct
pub mod Group
pub mod Message
mod Tests
use sagiton.Prelude.{
  ℕ, Bool, true, false, not, ◌&&◌, Option, none, some, ◌==◌, if◌then◌else◌, List, [], ◌∷◌, ltb,
}
use sagiton.Text.{Text}
use sagiton.Shared.{ok, err, text, not_found, internal}
use sagiton.Database.{Tx, gets, ◌>>=◌, refuse_if}
use sagiton.Database.Table.{find_where, exists_where}
use sagiton.Schema.{
  Db, UserRecord, ThreadKind, direct, group, ThreadRow, MemberRow, MessageRecord, ReadRow,
}
use sagiton.Message.{has_unread_among}

abbrev pub is_direct : ThreadKind → Bool
is_direct (direct _ _) = true
is_direct (group _ _) = false

abbrev pub is_group : ThreadKind → Bool
is_group (direct _ _) = false
is_group (group _ _) = true

-- WHERE thread_id = t AND user_id = u
abbrev pub is_member_of : ℕ → ℕ → MemberRow → Bool
is_member_of t u m = m.scope_id == t && m.user_id == u

-- `is_thread_member`.
abbrev pub is_thread_member : (thread_id user_id : ℕ) → Db → Bool
is_thread_member t u db = exists_where (is_member_of t u) db.thread_members

abbrev pub has_user : ℕ → Db → Bool
has_user u db = exists_where (λ r. r.id == u) db.users

abbrev pub find_user : ℕ → Db → Option UserRecord
find_user u db = find_where (λ r. r.id == u) db.users

abbrev pub raise_db : {A : Type 0} → Tx Db A
raise_db db = (err (internal (text "database error")), db)

-- `map_fk_as_not_found` on a violated reference.
abbrev pub raise_missing : {A : Type 0} → Tx Db A
raise_missing db = (err (not_found (text "referenced user or thread not found")), db)

-- The column `has_unread` of the thread `t` for the user `u`.
unfoldable pub has_unread : (thread_id user_id : ℕ) → Db → Bool
has_unread t u db = has_unread_among t u db.thread_reads db.thread_messages

-- ORDER BY t.created_at DESC; rows of one time stay in the order of the table.
abbrev pub put_latest : ThreadRow → List ThreadRow → List ThreadRow
put_latest t [] = t ∷ []
put_latest t (x ∷ xs) =
    let rest = put_latest t xs in if ltb t.created_at x.created_at then x ∷ rest else t ∷ x ∷ xs

abbrev pub latest_first : List ThreadRow → List ThreadRow
latest_first [] = []
latest_first (t ∷ rows) = put_latest t (latest_first rows)

-- `can_access_thread`.
unfoldable pub can_access_thread : (thread_id user_id : ℕ) → Tx Db Bool
can_access_thread t u = gets (is_thread_member t u)

-- `require_thread_member`.
unfoldable pub require_thread_member : (thread_id user_id : ℕ) → Tx Db Unit
require_thread_member t u = do
  member ← gets (is_thread_member t u)
  refuse_if (not member) (not_found (text "thread not found"))

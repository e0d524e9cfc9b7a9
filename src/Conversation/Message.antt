-- ===== src/Conversation/Message.antt =====
-- The messages of threads and what their members have read.
pub mod Authors
use sagiton.Prelude.{
  ℕ, ◌+◌, Bool, true, false, not, ◌&&◌, Option, none, some, List, [], ◌∷◌, ◌==◌, if◌then◌else◌,
  is_some,
}
use sagiton.Prelude.Int.{ℤ}
use sagiton.Text.{Text, trim}
use sagiton.Shared.{AppError, ok, err, text, validation, forbidden, not_found, internal}
use sagiton.Database.{Tx, pure, lift, gets, or_raise, ◌>>=◌, ◌>>◌, refuse_if}
use sagiton.Database.Table.{find_where, exists_where, update_where, delete_where}
use sagiton.Schema.{Env, Db, ThreadRow, MessageRecord, ReadRow}
use sagiton.Validation.{validate_message_content, normalize_limit}
use sagiton.Message.{MessagePage, repo_list_messages, page_result, is_live, resolve_last_read}
use sagiton.Friendship.{is_pending_direct}
use sagiton.Conversation.{
  is_direct, is_thread_member, has_user, raise_db, raise_missing, require_thread_member,
}

pub record ThreadMessageDeleted : Type 0 where
  pub thread_id : ℕ
  pub message_id : ℕ
  pub deleted_at : ℕ

-- `find_thread_access`: the thread, if the user is a member of it.
unfoldable pub find_thread_access : (thread_id user_id : ℕ) → Db → Option ThreadRow
find_thread_access thread_id u db =
    find_where (λ t. t.id == thread_id && is_thread_member t.id u db) db.threads

-- requested_by == Some(user)
abbrev pub is_requester : ℕ → Option ℕ → Bool
is_requester u none = false
is_requester u (some requester) = requester == u

-- The test on which `create_thread_message` refuses a member.
abbrev pub awaits_answer : ℕ → ThreadRow → Bool
awaits_answer u t =
    is_direct t.kind && (is_pending_direct t.direct_status && not (is_requester u t.requested_by))

-- `create_thread_message` of the repository.
unfoldable pub repo_create_thread_message :
    Env → (thread_id author_id : ℕ) → Text → Tx Db MessageRecord
repo_create_thread_message env thread_id author_id content db =
    let message : MessageRecord = record {
      id = env.new_v4 0;
      scope_id = thread_id;
      author_id = author_id;
      content = content;
      created_at = env.db_now;
      edited_at = none;
      deleted_at = none;
    } in
    if exists_where (λ m. m.id == env.new_v4 0) db.thread_messages
    then raise_db db
    else if exists_where (λ t. t.id == thread_id) db.threads && has_user author_id db
    then (ok message, record db { thread_messages = message ∷ db.thread_messages })
    else raise_missing db

-- `list_thread_messages` of the repository; its queries are those of the messages of a channel.
abbrev pub repo_list_thread_messages :
    (thread_id : ℕ) → Option ℕ → (limit : ℕ) → Tx Db (List MessageRecord)
unfolding repo_list_messages
repo_list_thread_messages thread_id before limit db =
    (repo_list_messages thread_id before limit db.thread_messages, db)

-- `find_thread_message_by_id`.
abbrev pub find_thread_message_by_id : ℕ → Db → Option MessageRecord
find_thread_message_by_id message_id db = find_where (λ m. m.id == message_id) db.thread_messages

-- UPDATE … RETURNING: the row that is written, as it is then.
abbrev pub update_returning : ℕ → (MessageRecord → MessageRecord) → Tx Db (Option MessageRecord)
update_returning message_id set db = (
  elim (find_where (is_live message_id) db.thread_messages) [
    | none ↦ ok none
    | some m ↦ ok (some (set m))
  ],
  record db { thread_messages = update_where (is_live message_id) set db.thread_messages },
)

unfoldable pub update_thread_message_content : Env → ℕ → Text → Tx Db (Option MessageRecord)
update_thread_message_content env message_id content =
    update_returning message_id (λ m. record m { content = content; edited_at = some env.db_now })

unfoldable pub soft_delete_thread_message : Env → ℕ → Tx Db (Option MessageRecord)
soft_delete_thread_message env message_id =
    update_returning message_id (λ m. record m { deleted_at = some env.db_now })

-- `mark_thread_read` of the repository.
unfoldable pub repo_mark_thread_read : Env → (thread_id user_id : ℕ) → Option ℕ → Tx Db ReadRow
unfolding resolve_last_read
repo_mark_thread_read env thread_id u last_read_message_id = do
  last ← (λ db. (resolve_last_read thread_id last_read_message_id db.thread_messages, db))
  (λ db.
      let read : ReadRow = record {
        user_id = u;
        scope_id = thread_id;
        last_read_message_id = last;
        updated_at = env.db_now;
      } in
      (
        ok read,
        record db {
          thread_reads =
              read ∷ delete_where (λ r. r.user_id == u && r.scope_id == thread_id) db.thread_reads;
        },
      ))

-- The use cases.
unfoldable pub mark_thread_read : Env → (user_id thread_id : ℕ) → Option ℕ → Tx Db ReadRow
mark_thread_read env u thread_id last_read_message_id = do
  require_thread_member thread_id u
  repo_mark_thread_read env thread_id u last_read_message_id

unfoldable pub create_thread_message : Env → (user_id thread_id : ℕ) → Text → Tx Db MessageRecord
create_thread_message env u thread_id content = do
  lift (validate_message_content content)
  access ← gets (find_thread_access thread_id u)
  access ← or_raise access (not_found (text "thread not found"))
  refuse_if (awaits_answer u access)
      (forbidden (text "direct thread request must be accepted before receiver can send messages"))
  repo_create_thread_message env thread_id u (trim content)

unfoldable pub list_thread_messages :
    (user_id thread_id : ℕ) → Option ℕ → Option ℤ → Tx Db MessagePage
list_thread_messages u thread_id before limit = do
  require_thread_member thread_id u
  limit ← lift (normalize_limit limit)
  messages ← repo_list_thread_messages thread_id before (limit + 1)
  lift (page_result limit (ok messages))

-- The guards that `edit_thread_message` and `delete_thread_message` share.
unfoldable pub require_author : (user_id message_id : ℕ) → (refusal : AppError) → Tx Db Unit
require_author u message_id refusal = do
  existing ← gets (find_thread_message_by_id message_id)
  existing ← or_raise existing (not_found (text "thread message not found"))
  refuse_if (is_some existing.deleted_at) (not_found (text "thread message not found"))
  require_thread_member existing.scope_id u
  refuse_if (not (existing.author_id == u)) refusal

unfoldable pub edit_thread_message : Env → (user_id message_id : ℕ) → Text → Tx Db MessageRecord
edit_thread_message env u message_id content = do
  lift (validate_message_content content)
  require_author u message_id (forbidden (text "only message author can edit thread message"))
  updated ← update_thread_message_content env message_id (trim content)
  or_raise updated (not_found (text "thread message not found"))

unfoldable pub delete_thread_message : Env → (user_id message_id : ℕ) → Tx Db ThreadMessageDeleted
delete_thread_message env u message_id = do
  require_author u message_id (forbidden (text "only message author can delete thread message"))
  deleted ← soft_delete_thread_message env message_id
  deleted ← or_raise deleted (not_found (text "thread message not found"))
  deleted_at ←
      or_raise deleted.deleted_at (internal (text "deleted_at is missing after thread soft delete"))
  pure (record { thread_id = deleted.scope_id; message_id = deleted.id; deleted_at = deleted_at })

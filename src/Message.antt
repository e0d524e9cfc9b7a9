-- ===== src/Message.antt =====
-- backend/src/application/use_cases/message.rs over
-- backend/src/infrastructure/db/repositories/message_repository.rs.
pub mod Feed
pub mod Paging
pub mod Rows
pub mod Authors
mod Tests
use sagiton.Prelude.{
  ℕ, ◌+◌, Bool, true, false, not, ◌&&◌, ◌||◌, Option, none, some, List, [], ◌∷◌, ltb, ◌==◌,
  if◌then◌else◌, is_some, is_none, length, take, get_last?,
}
use sagiton.Prelude.Int.{ℤ}
use sagiton.Text.{Text, trim}
use sagiton.Shared.{AppError, AppResult, ok, err, text, validation, forbidden, not_found, internal}
use sagiton.Database.{Tx, pure, lift, gets, or_raise, ◌>>=◌, ◌>>◌, refuse_if, modify}
use sagiton.Database.Table.{find_where, exists_where, select_where, update_where, delete_where}
use sagiton.Schema.{Env, Db, MessageRecord, ReadRow}
use sagiton.Permission.{view_channel, send_messages, has}
use sagiton.Validation.{validate_message_content, normalize_limit}
use sagiton.Guild.Permissions.{resolve_channel_permissions}

pub record MessagePage : Type 0 where
  pub messages : List MessageRecord
  pub next_cursor : Option ℕ

pub record MessageDeleted : Type 0 where
  pub channel_id : ℕ
  pub message_id : ℕ
  pub deleted_at : ℕ

-- (created_at, id) of the first is greater than that of the second.
abbrev pub newer : MessageRecord → MessageRecord → Bool
newer a b = ltb b.created_at a.created_at || b.created_at == a.created_at && ltb b.id a.id

-- ORDER BY created_at DESC, id DESC
abbrev pub put_newest : MessageRecord → List MessageRecord → List MessageRecord
put_newest m [] = m ∷ []
put_newest m (x ∷ xs) = let rest = put_newest m xs in if newer m x then m ∷ x ∷ xs else x ∷ rest

abbrev pub newest_first : List MessageRecord → List MessageRecord
newest_first [] = []
newest_first (m ∷ rows) = put_newest m (newest_first rows)

abbrev pub is_listed : ℕ → MessageRecord → Bool
is_listed scope m = m.scope_id == scope && is_none m.deleted_at

-- WHERE id = message_id AND channel_id = scope
abbrev pub is_at : ℕ → ℕ → MessageRecord → Bool
is_at scope message_id m = m.id == message_id && m.scope_id == scope

-- The rows of the two queries of `list_messages`, by the anchor that `find_anchor` finds.
abbrev pub rows_before : ℕ → Option MessageRecord → List MessageRecord → List MessageRecord
rows_before scope none rows = newest_first (select_where (is_listed scope) rows)
rows_before scope (some anchor) rows =
    newest_first (select_where (λ m. is_listed scope m && newer anchor m) rows)

-- `list_messages` of the repository.
unfoldable pub repo_list_messages :
    ℕ → Option ℕ → ℕ → List MessageRecord → AppResult (List MessageRecord)
repo_list_messages scope none limit rows = ok (take limit (rows_before scope none rows))
repo_list_messages scope (some message_id) limit rows =
    elim (find_where (is_at scope message_id) rows) [
      | none ↦ err (validation (text "invalid before cursor"))
      | some anchor ↦ ok (take limit (rows_before scope (some anchor) rows))
    ]

abbrev id_of : Option MessageRecord → Option ℕ
id_of none = none
id_of (some m) = some m.id

-- What `list_messages` of the use case makes of `limit + 1` rows.
unfoldable pub page_of : ℕ → List MessageRecord → MessagePage
page_of limit messages =
    let kept = take limit messages in
    if ltb limit (length messages)
    then record { messages = kept; next_cursor = id_of (get_last? kept) }
    else record { messages = messages; next_cursor = none }

abbrev pub page_result : ℕ → AppResult (List MessageRecord) → AppResult MessagePage
page_result limit (ok messages) = ok (page_of limit messages)
page_result limit (err e) = err e

-- `require_channel_permissions`.
unfoldable pub require_channel_permissions : (user_id channel_id : ℕ) → Tx Db ℕ
require_channel_permissions user_id channel_id = do
  bits ← gets (resolve_channel_permissions user_id channel_id)
  or_raise bits (not_found (text "channel not found"))

unfoldable pub list_messages : (user_id channel_id : ℕ) → Option ℕ → Option ℤ → Tx Db MessagePage
list_messages user_id channel_id before limit = do
  permissions ← require_channel_permissions user_id channel_id
  refuse_if (not (has permissions view_channel))
      (forbidden (text "missing VIEW_CHANNEL permission"))
  limit ← lift (normalize_limit limit)
  messages ← gets (λ db. repo_list_messages channel_id before (limit + 1) db.messages)
  lift (page_result limit messages)

-- The INSERT of `create_message`, under the primary key; the channel and the author that it refers
-- to exist, since the author's permissions in the channel were found.
unfoldable pub repo_create_message : Env → ℕ → ℕ → Text → Tx Db MessageRecord
repo_create_message env channel_id author_id content db =
    let message : MessageRecord = record {
      id = env.new_v4 0;
      scope_id = channel_id;
      author_id = author_id;
      content = content;
      created_at = env.db_now;
      edited_at = none;
      deleted_at = none;
    } in
    if exists_where (λ m. m.id == env.new_v4 0) db.messages
    then (err (internal (text "database error")), db)
    else (ok message, record db { messages = message ∷ db.messages })

unfoldable pub create_message : Env → (user_id channel_id : ℕ) → Text → Tx Db MessageRecord
create_message env user_id channel_id content = do
  lift (validate_message_content content)
  permissions ← require_channel_permissions user_id channel_id
  refuse_if (not (has permissions send_messages))
      (forbidden (text "missing SEND_MESSAGES permission"))
  repo_create_message env channel_id user_id (trim content)

abbrev pub find_message_by_id : ℕ → Db → Option MessageRecord
find_message_by_id message_id db = find_where (λ m. m.id == message_id) db.messages

-- WHERE id = message_id AND deleted_at IS NULL
abbrev pub is_live : ℕ → MessageRecord → Bool
is_live message_id m = m.id == message_id && is_none m.deleted_at

-- UPDATE … RETURNING: the row that is written, as it is then.
abbrev pub update_returning : ℕ → (MessageRecord → MessageRecord) → Tx Db (Option MessageRecord)
update_returning message_id set db = (
  elim (find_where (is_live message_id) db.messages) [
    | none ↦ ok none
    | some m ↦ ok (some (set m))
  ],
  record db { messages = update_where (is_live message_id) set db.messages },
)

unfoldable pub update_message_content : Env → ℕ → Text → Tx Db (Option MessageRecord)
update_message_content env message_id content =
    update_returning message_id (λ m. record m { content = content; edited_at = some env.db_now })

unfoldable pub soft_delete_message : Env → ℕ → Tx Db (Option MessageRecord)
soft_delete_message env message_id =
    update_returning message_id (λ m. record m { deleted_at = some env.db_now })

-- The guards that `edit_message` and `delete_message` share.
unfoldable pub require_author : (user_id message_id : ℕ) → (refusal : AppError) → Tx Db Unit
require_author user_id message_id refusal = do
  existing ← gets (find_message_by_id message_id)
  existing ← or_raise existing (not_found (text "message not found"))
  refuse_if (is_some existing.deleted_at) (not_found (text "message not found"))
  permissions ← require_channel_permissions user_id existing.scope_id
  refuse_if (not (has permissions send_messages))
      (forbidden (text "missing SEND_MESSAGES permission"))
  refuse_if (not (existing.author_id == user_id)) refusal

unfoldable pub edit_message : Env → (user_id message_id : ℕ) → Text → Tx Db MessageRecord
edit_message env user_id message_id content = do
  lift (validate_message_content content)
  require_author user_id message_id (forbidden (text "only message author can edit message"))
  updated ← update_message_content env message_id (trim content)
  or_raise updated (not_found (text "message not found"))

unfoldable pub delete_message : Env → (user_id message_id : ℕ) → Tx Db MessageDeleted
delete_message env user_id message_id = do
  require_author user_id message_id (forbidden (text "only message author can delete message"))
  deleted ← soft_delete_message env message_id
  deleted ← or_raise deleted (not_found (text "message not found"))
  deleted_at ←
      or_raise deleted.deleted_at (internal (text "deleted_at is missing after soft delete"))
  pure (record { channel_id = deleted.scope_id; message_id = deleted.id; deleted_at = deleted_at })

-- `resolve_channel_last_read_message_id`; with no id and no listed message, `fetch_one` raises.
unfoldable pub resolve_last_read : ℕ → Option ℕ → List MessageRecord → AppResult (Option ℕ)
resolve_last_read scope none rows = elim (rows_before scope none rows) [
  | [] ↦ err (internal (text "database error"))
  | m ∷ rest ↦ ok (some m.id)
]
resolve_last_read scope (some message_id) rows =
    if exists_where (λ m. is_at scope message_id m && is_none m.deleted_at) rows
    then ok (some message_id)
    else err (validation (text "invalid last_read_message_id"))

-- INSERT INTO channel_reads … ON CONFLICT (user_id, channel_id) DO UPDATE
unfoldable pub upsert_read : Env → ℕ → ℕ → Option ℕ → Tx Db ReadRow
upsert_read env channel_id user_id last db =
    let read : ReadRow = record {
      user_id = user_id;
      scope_id = channel_id;
      last_read_message_id = last;
      updated_at = env.db_now;
    } in
    (
      ok read,
      record db {
        channel_reads =
            read
            ∷ delete_where (λ r. r.user_id == user_id && r.scope_id == channel_id) db.channel_reads;
      },
    )

unfoldable pub mark_channel_read : Env → (user_id channel_id : ℕ) → Option ℕ → Tx Db ReadRow
mark_channel_read env user_id channel_id last_read_message_id = do
  permissions ← require_channel_permissions user_id channel_id
  refuse_if (not (has permissions view_channel))
      (forbidden (text "missing VIEW_CHANNEL permission"))
  last ← (λ db. (resolve_last_read channel_id last_read_message_id db.messages, db))
  upsert_read env channel_id user_id last

abbrev pub last_read_of : Option ReadRow → Option ℕ
last_read_of none = none
last_read_of (some read) = read.last_read_message_id

-- (m.created_at, m.id) > (COALESCE(trm.created_at, '-infinity'), COALESCE(trm.id, …))
abbrev pub is_after : Option MessageRecord → MessageRecord → Bool
is_after none m = true
is_after (some read) m = newer m read

-- tr.last_read_message_id IS NULL OR …, where `trm` is the message that was read last.
abbrev pub is_unread : Option ℕ → List MessageRecord → MessageRecord → Bool
is_unread none rows m = true
is_unread (some last) rows m = is_after (find_where (λ r. r.id == last) rows) m

-- The column `has_unread` of a channel or a thread for a user.
abbrev pub has_unread_among : (scope user_id : ℕ) → List ReadRow → List MessageRecord → Bool
has_unread_among scope u reads rows =
    let read = find_where (λ r. r.scope_id == scope && r.user_id == u) reads in
    exists_where (λ m. is_listed scope m && is_unread (last_read_of read) rows m) rows

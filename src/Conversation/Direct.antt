-- ===== src/Conversation/Direct.antt =====
-- Direct threads: a thread of two users that one of them asks for and the other accepts or rejects.
pub mod Summary
pub mod Protocol
pub mod Steps
pub mod Keys
pub mod Outcomes
pub mod Inbox
pub mod Phases
pub mod Refinement
use sagiton.Conversation.Direct.Summary.{
  DirectThreadSummary, summarize_all, is_direct_of, direct_summary_for_member,
  find_direct_thread_for_member,
}
use sagiton.Prelude.{
  ℕ, String, Bool, true, false, not, ◌&&◌, ◌||◌, Option, none, some, List, [], ◌∷◌, ◌==◌,
  if◌then◌else◌, is_some,
}
use sagiton.Text.{Text}
use sagiton.Shared.{ok, err, text, validation, not_found, internal}
use sagiton.Database.{Tx, pure, gets, or_raise, transaction, ◌>>=◌, ◌>>◌, refuse_if, modify}
use sagiton.Database.Table.{find_where, exists_where, select_where, update_where, delete_where}
use sagiton.Schema.{Env, Db, DirectStatus, ThreadKind, direct, group, ThreadRow, MemberRow}
use sagiton.Friendship.{sort_pair, are_friends, is_direct_pair, is_pending_direct}
use sagiton.Conversation.{
  is_direct, is_member_of, is_thread_member, has_user, find_user, raise_db, raise_missing,
  has_unread, latest_first,
}

pub record DirectThreadUpsertResult : Type 0 where
  pub thread : DirectThreadSummary
  pub created : Bool

pub record DirectThreadTransition : Type 0 where
  pub thread_id : ℕ
  pub requester_user_id : ℕ
  pub receiver_user_id : ℕ
  pub accepted_at : Option ℕ

pub data DirectInboxFilter : Type 0 where
  all pending : DirectInboxFilter

-- `lock_direct_thread_for_member`.
abbrev pub lock_direct_thread_for_member : (thread_id user_id : ℕ) → Db → Option ThreadRow
lock_direct_thread_for_member thread_id u db = find_where (is_direct_of thread_id u db) db.threads

-- INSERT INTO thread_members … ON CONFLICT DO NOTHING; the thread and its users exist.
abbrev pub join_thread : (thread_id user_id : ℕ) → Db → Db
join_thread t u db =
    if is_thread_member t u db
    then db
    else record db { thread_members = record { scope_id = t; user_id = u } ∷ db.thread_members }

-- `ensure_direct_membership`.
unfoldable pub ensure_direct_membership : (thread_id a b : ℕ) → Tx Db Unit
ensure_direct_membership t a b = modify (λ db. join_thread t b (join_thread t a db))

abbrev pub new_direct_thread : Env → (user_id : ℕ) → ℕ × ℕ → (are_friends : Bool) → ThreadRow
new_direct_thread env u p friends = record {
  id = env.new_v4 0;
  kind = direct p.0 p.1;
  direct_status = if friends then DirectStatus.active else DirectStatus.pending;
  requested_by = if friends then none else some u;
  accepted_at = if friends then some env.now_utc else none;
  created_at = env.db_now;
}

-- INSERT INTO threads … ON CONFLICT (kind, direct_a_user_id, direct_b_user_id) DO NOTHING RETURNING id
unfoldable pub insert_direct_thread : ThreadRow → ℕ × ℕ → Tx Db (Option ℕ)
insert_direct_thread row p db =
    if exists_where (λ t. is_direct_pair p t.kind) db.threads
    then (ok none, db)
    else if exists_where (λ t. t.id == row.id) db.threads
    then raise_db db
    else if has_user p.0 db && has_user p.1 db
    then (ok (some row.id), record db { threads = row ∷ db.threads })
    else raise_missing db

abbrev id_of_thread : Option ThreadRow → Option ℕ
id_of_thread none = none
id_of_thread (some t) = some t.id

-- `match created_thread_id`: the id that was inserted, or the one of the thread that is there.
unfoldable pub resolve_direct_thread : ℕ × ℕ → Option ℕ → Tx Db ℕ
resolve_direct_thread p (some id) = pure id
resolve_direct_thread p none = do
  id ← gets (λ db. id_of_thread (find_where (λ t. is_direct_pair p t.kind) db.threads))
  or_raise id (internal (text "database error"))

-- `create_or_get_direct_thread`, on the sorted pair.
unfoldable pub create_or_get_pair : Env → (user_id : ℕ) → ℕ × ℕ → Tx Db DirectThreadUpsertResult
create_or_get_pair env u p = transaction (do
  friends ← gets (λ db. exists_where (λ r. r.user_id_a == p.0 && r.user_id_b == p.1) db.friends)
  created ← insert_direct_thread (new_direct_thread env u p friends) p
  thread_id ← resolve_direct_thread p created
  ensure_direct_membership thread_id p.0 p.1
  summary ← direct_summary_for_member thread_id u
  pure (record { thread = summary; created = is_some created }))

-- `create_or_get_direct_thread`.
unfoldable pub create_or_get_direct_thread :
    Env → (user_id peer : ℕ) → Tx Db DirectThreadUpsertResult
unfolding sort_pair
create_or_get_direct_thread env u peer = create_or_get_pair env u (sort_pair u peer)

abbrev pub activate : ℕ → ThreadRow → ThreadRow
activate now t = record t { direct_status = DirectStatus.active; accepted_at = some now }

-- UPDATE threads SET direct_status = 'ACTIVE', accepted_at = NOW() WHERE id = thread_id
abbrev pub activate_thread : ℕ → ℕ → Db → Db
activate_thread now thread_id db = record db {
  threads = update_where (λ t. t.id == thread_id) (activate now) db.threads;
}

-- DELETE FROM threads WHERE id = thread_id, with what refers to the thread ON DELETE CASCADE.
abbrev pub delete_thread : ℕ → Db → Db
delete_thread thread_id db = record db {
  threads = delete_where (λ t. t.id == thread_id) db.threads;
  thread_members = delete_where (λ m. m.scope_id == thread_id) db.thread_members;
  thread_messages = delete_where (λ m. m.scope_id == thread_id) db.thread_messages;
  thread_reads = delete_where (λ r. r.scope_id == thread_id) db.thread_reads;
  group_invites = delete_where (λ i. i.scope_id == thread_id) db.group_invites;
}

-- The guards of the two transitions: the requester of a pending thread, if he is another user.
unfoldable pub require_receiver :
    (refusal : String) → (own : String) → (receiver : ℕ) → ThreadRow → Tx Db ℕ
require_receiver refusal own receiver t = do
  refuse_if (not (is_pending_direct t.direct_status)) (validation (text refusal))
  requester ← or_raise t.requested_by (internal (text "pending direct thread missing requester"))
  refuse_if (requester == receiver) (validation (text own))
  pure requester

-- `accept_direct_thread_request`.
unfoldable pub accept_locked :
    Env → (thread_id receiver : ℕ) → Option ThreadRow → Tx Db (Option DirectThreadTransition)
accept_locked env thread_id receiver none = pure none
accept_locked env thread_id receiver (some t) = do
  requester ←
      require_receiver "direct thread is already active" "requester cannot accept own direct thread"
        receiver t
  modify (activate_thread env.db_now t.id)
  pure (
      some (record {
        thread_id = thread_id;
        requester_user_id = requester;
        receiver_user_id = receiver;
        accepted_at = some env.db_now;
      }))

unfoldable pub accept_direct_thread_request :
    Env → (thread_id receiver : ℕ) → Tx Db (Option DirectThreadTransition)
accept_direct_thread_request env thread_id receiver = transaction (do
  thread ← gets (lock_direct_thread_for_member thread_id receiver)
  accept_locked env thread_id receiver thread)

-- `reject_direct_thread_request`.
unfoldable pub reject_locked :
    (thread_id receiver : ℕ) → Option ThreadRow → Tx Db (Option DirectThreadTransition)
reject_locked thread_id receiver none = pure none
reject_locked thread_id receiver (some t) = do
  requester ←
      require_receiver "only pending direct thread can be rejected"
        "requester cannot reject own direct thread" receiver t
  modify (delete_thread t.id)
  pure (
      some (record {
        thread_id = thread_id;
        requester_user_id = requester;
        receiver_user_id = receiver;
        accepted_at = none;
      }))

unfoldable pub reject_direct_thread_request :
    (thread_id receiver : ℕ) → Tx Db (Option DirectThreadTransition)
reject_direct_thread_request thread_id receiver = transaction (do
  thread ← gets (lock_direct_thread_for_member thread_id receiver)
  reject_locked thread_id receiver thread)

-- The queries of `list_direct_threads` and of `list_pending_direct_inbox`.
abbrev pub is_mine : ℕ → Db → ThreadRow → Bool
is_mine u db t = is_direct t.kind && is_thread_member t.id u db

-- t.requested_by IS NOT NULL AND t.requested_by <> user
abbrev pub is_requested_by_other : ℕ → Option ℕ → Bool
is_requested_by_other u none = false
is_requested_by_other u (some requester) = not (requester == u)

abbrev pub is_received : ℕ → Db → ThreadRow → Bool
is_received u db t =
    is_mine u db t && (is_pending_direct t.direct_status && is_requested_by_other u t.requested_by)

unfoldable pub repo_list_direct_threads : ℕ → Db → List DirectThreadSummary
repo_list_direct_threads u db =
    summarize_all u db (latest_first (select_where (is_mine u db) db.threads))

unfoldable pub list_pending_direct_inbox : ℕ → Db → List DirectThreadSummary
list_pending_direct_inbox u db =
    summarize_all u db (latest_first (select_where (is_received u db) db.threads))

-- The use cases.
unfoldable pub create_direct_thread : Env → (user_id peer : ℕ) → Tx Db DirectThreadUpsertResult
create_direct_thread env u peer = do
  refuse_if (u == peer) (validation (text "cannot create direct thread with yourself"))
  create_or_get_direct_thread env u peer

unfoldable pub list_direct_threads : ℕ → DirectInboxFilter → Tx Db (List DirectThreadSummary)
list_direct_threads u all = gets (repo_list_direct_threads u)
list_direct_threads u pending = gets (list_pending_direct_inbox u)

unfoldable pub get_direct_thread : (thread_id user_id : ℕ) → Tx Db DirectThreadSummary
get_direct_thread thread_id u = do
  found ← gets (find_direct_thread_for_member thread_id u)
  or_raise found (not_found (text "direct thread not found"))

unfoldable pub accept_direct_thread : Env → (user_id thread_id : ℕ) → Tx Db DirectThreadTransition
accept_direct_thread env u thread_id = do
  transition ← accept_direct_thread_request env thread_id u
  or_raise transition (not_found (text "direct thread not found"))

unfoldable pub reject_direct_thread : (user_id thread_id : ℕ) → Tx Db DirectThreadTransition
reject_direct_thread u thread_id = do
  transition ← reject_direct_thread_request thread_id u
  or_raise transition (not_found (text "direct thread not found"))

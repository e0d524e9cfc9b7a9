-- ===== src/Conversation/Tests.antt =====
-- Conversations at concrete databases.
use sagiton.Prelude.{ℕ, ◌+◌, ◌≡◌, ◌==◌, ◌&&◌, refl, none, some, [], ◌∷◌, arith, false}
use sagiton.Text.{trim, len}
use sagiton.Shared.{ok, is_ok}
use sagiton.Database.Table.{find_where, exists_where}
use sagiton.Prelude.Int.{pos}
use sagiton.Schema.{Env, Db, UserRecord, DirectStatus, ThreadRow, direct, MessageRecord, empty_db}
use sagiton.Validation.{validate_message_content}
use sagiton.Conversation.{require_thread_member}
use sagiton.Conversation.Direct.{
  create_direct_thread, accept_direct_thread, list_pending_direct_inbox,
}
use sagiton.Conversation.Direct.Steps.{start, next}
use sagiton.Conversation.Direct.Keys.{IsKeyed}
use sagiton.Conversation.Direct.Inbox.{list_pending_direct_inbox-accept_direct_thread}
use sagiton.Conversation.Group
use sagiton.Conversation.Group.{create_group_thread}
use sagiton.Conversation.Group.Invite.{create_group_invite, join_group_invite}
use sagiton.Conversation.Group.Steps
use sagiton.Conversation.Group.Owners.{IsSound, Reach-IsSound}
use sagiton.Message.{is_live}
use sagiton.Conversation.Message.{
  create_thread_message, edit_thread_message, delete_thread_message, soft_delete_thread_message,
  find_thread_access, require_author, update_thread_message_content, repo_create_thread_message,
}
use sagiton.Conversation.Message.Authors.{
  IsAuthored, IsChanged, IsOpenTo, edit, tombstone, edit_thread_message_by_author,
  delete_thread_message_by_author, create_thread_message_by_member,
}

abbrev env : Env
env = record { db_now = 10; now_utc = 10; new_v4 = λ i. 100 + i }

abbrev user : ℕ → UserRecord
user id = record { id = id; username = id ∷ []; email = none; password_hash = [] }

abbrev two_users : Db
two_users = record empty_db { users = user 1 ∷ user 2 ∷ [] }

-- User 1 asks user 2 for a thread, who accepts it.
abbrev requested_db : Db
requested_db = (create_direct_thread env 1 2 two_users).1

abbrev accepted_db : Db
accepted_db = (accept_direct_thread env 2 100 requested_db).1

-- The thread 100, which user 1 asked user 2 for.
abbrev request : ThreadRow
request = record {
  id = 100;
  kind = direct 1 2;
  direct_status = DirectStatus.pending;
  requested_by = some 1;
  accepted_at = none;
  created_at = 5;
}

abbrev note : MessageRecord
note = record {
  id = 300;
  scope_id = 100;
  author_id = 1;
  content = 65 ∷ [];
  created_at = 6;
  edited_at = none;
  deleted_at = none;
}

abbrev waiting : Db
waiting = record two_users {
  threads = request ∷ [];
  thread_members =
      record { scope_id = 100; user_id = 2 } ∷ record { scope_id = 100; user_id = 1 } ∷ [];
  thread_messages = note ∷ [];
}

waiting-IsKeyed : IsKeyed waiting
waiting-IsKeyed = record {
  unique = (refl, tt);
  paired = λ id u h. (request, ground arith, ground arith);
}

list_pending_direct_inbox-accept_direct_thread_example :
    exists_where (λ s. s.id == 100) (list_pending_direct_inbox 2 waiting)
    ≡ is_ok (accept_direct_thread env 2 100 waiting).0
list_pending_direct_inbox-accept_direct_thread_example =
    list_pending_direct_inbox-accept_direct_thread env 2 100 waiting waiting-IsKeyed
      (λ a b e. (ground (arith, e), ground (arith, e)), tt)

-- The user who asked may write while the thread waits.
create_thread_message_by_member_example :
    ((t : ThreadRow) × (find_where
          (λ x.
            x.id == 100
            && exists_where (λ y. y.scope_id == x.id && y.user_id == 1) waiting.thread_members)
          waiting.threads
        ≡ some t)
      × IsOpenTo 1 t)
    × (validate_message_content (66 ∷ []) ≡ ok tt)
    × (exists_where (λ x. x.id == 100) waiting.thread_messages ≡ false)
    × (record note { id = 100; content = 66 ∷ []; created_at = 10 } ≡ record {
      id = 100;
      scope_id = 100;
      author_id = 1;
      content = trim (66 ∷ []);
      created_at = 10;
      edited_at = none;
      deleted_at = none;
    })
    × ((create_thread_message env 1 100 (66 ∷ []) waiting).1 ≡ record waiting {
      thread_messages = record note { id = 100; content = 66 ∷ []; created_at = 10 } ∷ note ∷ [];
    })
unfolding create_thread_message repo_create_thread_message validate_message_content trim len
    find_thread_access
create_thread_message_by_member_example =
    create_thread_message_by_member env 1 100 (66 ∷ []) waiting
      (record note { id = 100; content = 66 ∷ []; created_at = 10 }) refl

edit_thread_message_by_author_example :
    (validate_message_content (66 ∷ []) ≡ ok tt)
    × ((m : MessageRecord) × IsAuthored 1 300 waiting m
        × IsChanged 300
            (edit env 1 300 (66 ∷ []) waiting)
            waiting
            (edit_thread_message env 1 300 (66 ∷ []) waiting).1
            m)
unfolding edit_thread_message validate_message_content trim len require_author require_thread_member
    update_thread_message_content
edit_thread_message_by_author_example =
    edit_thread_message_by_author env 1 300 (66 ∷ []) waiting refl

delete_thread_message_by_author_example :
    (m : MessageRecord) × IsAuthored 1 300 waiting m
    × IsChanged 300
        (tombstone env 1 300 waiting)
        waiting
        (delete_thread_message env 1 300 waiting).1
        m
    × (exists_where (is_live 300) (delete_thread_message env 1 300 waiting).1.thread_messages
        ≡ false)
unfolding delete_thread_message require_author require_thread_member soft_delete_thread_message
delete_thread_message_by_author_example = delete_thread_message_by_author env 1 300 waiting refl

-- User 1 makes a group and an invite for one use, which user 2 takes.
abbrev with_group : Db
with_group = (create_group_thread env 1 (65 ∷ 66 ∷ []) [] two_users).1

abbrev with_invite : Db
with_invite = (create_group_invite env (7 ∷ []) 1 100 none (some (pos 1)) with_group).1

abbrev with_guest : Db
with_guest = (join_group_invite env 2 (7 ∷ []) with_invite).1

two_users-IsSound : IsSound two_users
unfolding Group.is_group_owner
two_users-IsSound = (λ t u h. absurd (ground arith), λ t i h. absurd (ground arith))

Reach-IsSound_example : IsSound with_guest
Reach-IsSound_example = Reach-IsSound {s = two_users} {t = with_guest} two_users-IsSound (
    Steps.next
      (Steps.next
        (Steps.next Steps.start (Steps.create_group_thread_step env 1 (65 ∷ 66 ∷ []) [] two_users))
        (Steps.create_group_invite_step env (7 ∷ []) 1 100 none (some (pos 1)) with_group))
      (Steps.join_group_invite_step env 2 (7 ∷ []) with_invite))

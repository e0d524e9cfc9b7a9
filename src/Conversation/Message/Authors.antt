-- ===== src/Conversation/Message/Authors.antt =====
-- Who may write and change a message of a thread, and what a change does.
use sagiton.Prelude.{
  ℕ, ◌≡◌, ◌⊎◌, ◌&&◌, Option, refl, true, false, ◌==◌, none, some, ◌∷◌, arith, Option-cases, inl,
  inr, ==_iff,
}
use sagiton.Text.{Text, trim}
use sagiton.Shared.{AppError, forbidden, text, ok, is_ok}
use sagiton.Database.Table.{find_where, exists_where, update_where}
use sagiton.Schema.{Env, Db, DirectStatus, ThreadKind, direct, group, ThreadRow, MessageRecord}
use sagiton.Validation.{validate_message_content}
use sagiton.Message.{is_live}
use sagiton.Message.Rows.{found_changed, others_kept, none_live}
use sagiton.Conversation.{is_thread_member, require_thread_member}
use sagiton.Conversation.Message.{
  find_thread_access, awaits_answer, create_thread_message, repo_create_thread_message,
  find_thread_message_by_id, update_thread_message_content, soft_delete_thread_message,
  require_author, edit_thread_message, delete_thread_message,
}

-- A message that is not deleted, of an author who is still a member of its thread.
abbrev pub IsAuthored : (user_id message_id : ℕ) → Db → MessageRecord → Type 0
IsAuthored u id db m =
    (find_thread_message_by_id id db ≡ some m)
    × (m.deleted_at ≡ none)
    × (m.author_id ≡ u)
    × (is_thread_member m.scope_id u db ≡ true)

module _ (u id : ℕ) (refusal : AppError) (db : Db) where
  require_author_reads : (require_author u id refusal db).1 ≡ db
  unfolding require_author require_thread_member
  require_author_reads = ground arith

  require_author_ok :
      (require_author u id refusal db).0 ≡ ok tt → (m : MessageRecord) × IsAuthored u id db m
  unfolding require_author require_thread_member
  require_author_ok h = elim (Option-cases (find_thread_message_by_id id db)) [
    | inl e ↦ absurd (ground arith)
    | inr (m, e) ↦ (m, (e, ground arith, ground (arith, (==_iff m.author_id u).0), ground arith))
  ]

abbrev changed : ℕ → (MessageRecord → MessageRecord) → Db → Db
changed id set db = record db { thread_messages = update_where (is_live id) set db.thread_messages }

-- What a change of the message `id` leaves, for the message that was found.
abbrev pub IsChanged : (id : ℕ) → (MessageRecord → MessageRecord) → Db → Db → MessageRecord → Type 0
IsChanged id set db db' m =
    (find_thread_message_by_id id db' ≡ some (set m))
    × ((other : ℕ)
        → (id == other) ≡ false
        → find_thread_message_by_id other db' ≡ find_thread_message_by_id other db)

changed-IsChanged :
    (u id : ℕ) (set : MessageRecord → MessageRecord) (db : Db) (m : MessageRecord)
    → ((r : MessageRecord) → (set r).id ≡ r.id)
    → IsAuthored u id db m
    → IsChanged id set db (changed id set db) m
changed-IsChanged u id set db m keeps a = (
  found_changed id set m db.thread_messages keeps a.0 a.1,
  λ other d. others_kept id other set db.thread_messages keeps d,
)

module _ (env : Env) (u id : ℕ) (content : Text) (db : Db) where
  abbrev pub edit : MessageRecord → MessageRecord
  edit m = record m { content = trim content; edited_at = some env.db_now }

  abbrev edit_refusal : AppError
  edit_refusal = forbidden (text "only message author can edit thread message")

  edit_allowed :
      is_ok (edit_thread_message env u id content db).0 ≡ true
      → (require_author u id edit_refusal db).0 ≡ ok tt
  unfolding edit_thread_message
  edit_allowed h = ground arith

  edit_writes :
      (require_author u id edit_refusal db).0 ≡ ok tt
      → is_ok (edit_thread_message env u id content db).0 ≡ true
      → (edit_thread_message env u id content db).1 ≡ changed id edit db
  unfolding edit_thread_message update_thread_message_content
  edit_writes h k = ground (arith, require_author_reads u id edit_refusal db)

module _ (env : Env) (u id : ℕ) (db : Db) where
  abbrev pub tombstone : MessageRecord → MessageRecord
  tombstone m = record m { deleted_at = some env.db_now }

  abbrev delete_refusal : AppError
  delete_refusal = forbidden (text "only message author can delete thread message")

  delete_allowed :
      is_ok (delete_thread_message env u id db).0 ≡ true
      → (require_author u id delete_refusal db).0 ≡ ok tt
  unfolding delete_thread_message
  delete_allowed h = ground arith

  delete_writes :
      (require_author u id delete_refusal db).0 ≡ ok tt
      → (delete_thread_message env u id db).1 ≡ changed id tombstone db
  unfolding delete_thread_message soft_delete_thread_message
  delete_writes h = ground (arith, require_author_reads u id delete_refusal db)

-- A message of a thread is edited only by its author, while it is not deleted, the author is a member
-- of its thread and the content is accepted; afterwards its id finds it with the trimmed content, and
-- every other id what it found before.
pub edit_thread_message_by_author :
    (env : Env) (u id : ℕ) (content : Text) (db : Db)
    → is_ok (edit_thread_message env u id content db).0 ≡ true
    → (validate_message_content content ≡ ok tt)
      × ((m : MessageRecord) × IsAuthored u id db m
          × IsChanged id
              (edit env u id content db)
              db
              (edit_thread_message env u id content db).1
              m)
unfolding edit_thread_message
edit_thread_message_by_author env u id content db h =
    let allowed = edit_allowed env u id content db h in
    let a = require_author_ok u id (edit_refusal env u id content db) db allowed in
    (
      ground arith,
      (
        a.0,
        a.1,
        rw (edit_writes env u id content db allowed h)
            (changed-IsChanged u id (edit env u id content db) db a.0 (λ r. refl) a.1),
      ),
    )

-- A message of a thread is deleted only by its author, while it is not deleted and the author is a
-- member of its thread; afterwards no message with its id is listed, its id finds it with the time of
-- the deletion, and every other id what it found before.
pub delete_thread_message_by_author :
    (env : Env) (u id : ℕ) (db : Db)
    → is_ok (delete_thread_message env u id db).0 ≡ true
    → (m : MessageRecord) × IsAuthored u id db m
      × IsChanged id (tombstone env u id db) db (delete_thread_message env u id db).1 m
      × (exists_where (is_live id) (delete_thread_message env u id db).1.thread_messages ≡ false)
delete_thread_message_by_author env u id db h =
    let allowed = delete_allowed env u id db h in
    let a = require_author_ok u id (delete_refusal env u id db) db allowed in
    let wrote = delete_writes env u id db allowed in
    (
      a.0,
      a.1,
      rw wrote (changed-IsChanged u id (tombstone env u id db) db a.0 (λ r. refl) a.1),
      rw wrote (none_live id env.db_now db.thread_messages),
    )

-- Who may write to a thread: anyone in a group or in a thread that is active, and the user who asked
-- for it.
abbrev pub IsOpenTo : ℕ → ThreadRow → Type 0
IsOpenTo u t =
    ((name : Text) × (owner_id : ℕ) × (t.kind ≡ group name owner_id))
    ⊎ ((t.direct_status ≡ DirectStatus.active) ⊎ (t.requested_by ≡ some u))

answered-IsOpenTo :
    (u : ℕ) (t : ThreadRow) (k : ThreadKind) (s : DirectStatus) (r : Option ℕ)
    → t.kind ≡ k
    → t.direct_status ≡ s
    → t.requested_by ≡ r
    → awaits_answer u t ≡ false
    → IsOpenTo u t
answered-IsOpenTo u t (group name owner_id) s r k e q h = inl (name, owner_id, k)
answered-IsOpenTo u t (direct a b) DirectStatus.active r k e q h = inr (inl e)
answered-IsOpenTo u t (direct a b) DirectStatus.pending none k e q h = absurd (ground arith)
answered-IsOpenTo u t (direct a b) DirectStatus.pending (some v) k e q h =
    let same : v ≡ u = (==_iff v u).0 (ground arith) in inr (inr (rw (q, same) refl))

-- A message is written to a thread only by a member, with accepted content, and in a direct thread
-- that waits for an answer only by the user who asked for it; it is stored in front of the others,
-- under a new id, with the trimmed content, the thread and its author, and is not deleted.
pub create_thread_message_by_member :
    (env : Env) (u thread_id : ℕ) (content : Text) (db : Db) (m : MessageRecord)
    → (create_thread_message env u thread_id content db).0 ≡ ok m
    → ((t : ThreadRow) × (find_where
            (λ x.
              x.id == thread_id
              && exists_where (λ y. y.scope_id == x.id && y.user_id == u) db.thread_members)
            db.threads
          ≡ some t)
        × IsOpenTo u t)
      × (validate_message_content content ≡ ok tt)
      × (exists_where (λ x. x.id == m.id) db.thread_messages ≡ false)
      × (m ≡ record {
        id = env.new_v4 0;
        scope_id = thread_id;
        author_id = u;
        content = trim content;
        created_at = env.db_now;
        edited_at = none;
        deleted_at = none;
      })
      × ((create_thread_message env u thread_id content db).1
          ≡ record db { thread_messages = m ∷ db.thread_messages })
unfolding create_thread_message repo_create_thread_message find_thread_access
create_thread_message_by_member env u thread_id content db m h =
    elim (Option-cases (find_thread_access thread_id u db)) [
      | inl k ↦ absurd (ground arith)
      | inr (t, k) ↦ (
        (
          t,
          k,
          answered-IsOpenTo u t t.kind t.direct_status t.requested_by refl refl refl (ground arith),
        ),
        ground arith,
        ground arith,
        ground arith,
        ground arith,
      )
    ]

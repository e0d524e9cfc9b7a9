-- ===== src/Message/Authors.antt =====
-- Who may change a message, and what a change does.
use sagiton.Prelude.{
  ℕ, ◌≡◌, refl, true, false, ◌==◌, none, some, ◌∷◌, arith, Option-cases, inl, inr, ==_iff,
}
use sagiton.Text.{Text, trim}
use sagiton.Shared.{AppError, forbidden, text, ok, is_ok}
use sagiton.Database.Table.{find_where, exists_where, update_where}
use sagiton.Schema.{Env, Db, MessageRecord}
use sagiton.Permission.{send_messages, has}
use sagiton.Guild.Permissions.{resolve_channel_permissions}
use sagiton.Validation.{validate_message_content}
use sagiton.Message.Rows.{live_found, found_changed, others_kept, none_live}
use sagiton.Message.{
  create_message, repo_create_message, find_message_by_id, is_live, update_message_content,
  soft_delete_message, require_channel_permissions, require_author, edit_message, delete_message,
}

-- A message that is not deleted, of an author who may still send messages to its channel.
abbrev pub IsAuthored : (user_id message_id : ℕ) → Db → MessageRecord → Type 0
IsAuthored u id db m =
    (find_message_by_id id db ≡ some m)
    × (m.deleted_at ≡ none)
    × (m.author_id ≡ u)
    × ((bits : ℕ) × (resolve_channel_permissions u m.scope_id db ≡ some bits)
        × (has bits send_messages ≡ true))

module _ (u id : ℕ) (refusal : AppError) (db : Db) where
  require_author_reads : (require_author u id refusal db).1 ≡ db
  unfolding require_author require_channel_permissions
  require_author_reads = ground arith

  require_author_ok :
      (require_author u id refusal db).0 ≡ ok tt → (m : MessageRecord) × IsAuthored u id db m
  unfolding require_author require_channel_permissions
  require_author_ok h = elim (Option-cases (find_message_by_id id db)) [
    | inl e ↦ absurd (ground arith)
    | inr (m, e) ↦ elim (Option-cases (resolve_channel_permissions u m.scope_id db)) [
      | inl k ↦ absurd (ground arith)
      | inr (bits, k) ↦
          (m, (e, ground arith, ground (arith, (==_iff m.author_id u).0), (bits, k, ground arith)))
    ]
  ]

-- The messages with a given id, of which those that are not deleted are changed.
abbrev changed : ℕ → (MessageRecord → MessageRecord) → Db → Db
changed id set db = record db { messages = update_where (is_live id) set db.messages }

module _ (env : Env) (u id : ℕ) (content : Text) (db : Db) where
  abbrev pub edit : MessageRecord → MessageRecord
  edit m = record m { content = trim content; edited_at = some env.db_now }

  edit_message_allowed :
      is_ok (edit_message env u id content db).0 ≡ true
      → (require_author u id (forbidden (text "only message author can edit message")) db).0 ≡ ok tt
  unfolding edit_message
  edit_message_allowed h = ground arith

  edit_message_writes :
      (require_author u id (forbidden (text "only message author can edit message")) db).0 ≡ ok tt
      → is_ok (edit_message env u id content db).0 ≡ true
      → (edit_message env u id content db).1 ≡ changed id edit db
  unfolding edit_message update_message_content
  edit_message_writes h k = ground (
    arith,
    require_author_reads u id (forbidden (text "only message author can edit message")) db,
  )

  edit_message_returns :
      (m : MessageRecord)
      → find_where (is_live id) db.messages ≡ some m
      → is_ok (edit_message env u id content db).0 ≡ true
      → (edit_message env u id content db).0 ≡ ok (edit m)
  unfolding edit_message update_message_content
  edit_message_returns m h k = ground (
    arith,
    h,
    edit_message_allowed k,
    require_author_reads u id (forbidden (text "only message author can edit message")) db,
  )

-- A message is edited only by its author, while it is not deleted and the author may send messages
-- to its channel; afterwards its id finds it with the trimmed content, and every other id what it
-- found before.
pub edit_message_by_author :
    (env : Env) (u id : ℕ) (content : Text) (db : Db)
    → is_ok (edit_message env u id content db).0 ≡ true
    → (m : MessageRecord) × IsAuthored u id db m
      × ((edit_message env u id content db).0 ≡ ok (edit env u id content db m))
      × (find_message_by_id id (edit_message env u id content db).1
          ≡ some (record m { content = trim content; edited_at = some env.db_now }))
      × ((other : ℕ)
          → (id == other) ≡ false
          → find_message_by_id other (edit_message env u id content db).1
            ≡ find_message_by_id other db)
edit_message_by_author env u id content db h =
    let allowed = edit_message_allowed env u id content db h in
    let a =
      require_author_ok u id (forbidden (text "only message author can edit message")) db allowed in
    let wrote = edit_message_writes env u id content db allowed h in
    let set = edit env u id content db in
    (
      a.0,
      a.1,
      edit_message_returns env u id content db a.0 (live_found id a.0 db.messages a.1.0 a.1.1) h,
      rw wrote (found_changed id set a.0 db.messages (λ r. refl) a.1.0 a.1.1),
      λ other d. rw wrote (others_kept id other set db.messages (λ r. refl) d),
    )

module _ (env : Env) (u id : ℕ) (db : Db) where
  abbrev tombstone : MessageRecord → MessageRecord
  tombstone m = record m { deleted_at = some env.db_now }

  delete_message_allowed :
      is_ok (delete_message env u id db).0 ≡ true
      → (require_author u id (forbidden (text "only message author can delete message")) db).0
        ≡ ok tt
  unfolding delete_message
  delete_message_allowed h = ground arith

  delete_message_writes :
      (require_author u id (forbidden (text "only message author can delete message")) db).0 ≡ ok tt
      → (delete_message env u id db).1 ≡ changed id tombstone db
  unfolding delete_message soft_delete_message
  delete_message_writes h = ground (
    arith,
    require_author_reads u id (forbidden (text "only message author can delete message")) db,
  )

-- A message is deleted only by its author, while it is not deleted and the author may send messages
-- to its channel; afterwards no message with its id is listed, the time of the deletion is kept, and
-- every other id finds what it found before.
pub delete_message_by_author :
    (env : Env) (u id : ℕ) (db : Db)
    → is_ok (delete_message env u id db).0 ≡ true
    → (m : MessageRecord) × IsAuthored u id db m
      × (exists_where (is_live id) (delete_message env u id db).1.messages ≡ false)
      × (find_message_by_id id (delete_message env u id db).1
          ≡ some (record m { deleted_at = some env.db_now }))
      × ((other : ℕ)
          → (id == other) ≡ false
          → find_message_by_id other (delete_message env u id db).1 ≡ find_message_by_id other db)
delete_message_by_author env u id db h =
    let allowed = delete_message_allowed env u id db h in
    let a =
      require_author_ok u id (forbidden (text "only message author can delete message")) db
        allowed in
    let wrote = delete_message_writes env u id db allowed in
    let set = tombstone env u id db in
    (
      a.0,
      a.1,
      rw wrote (none_live id env.db_now db.messages),
      rw wrote (found_changed id set a.0 db.messages (λ r. refl) a.1.0 a.1.1),
      λ other d. rw wrote (others_kept id other set db.messages (λ r. refl) d),
    )

-- A message is created only by a user who may send messages to its channel and with accepted
-- content; it is stored in front of the others with the trimmed content, the channel and the user
-- as its author, and is not deleted.
pub create_message_by_sender :
    (env : Env) (u c : ℕ) (content : Text) (db : Db) (m : MessageRecord)
    → (create_message env u c content db).0 ≡ ok m
    → ((bits : ℕ) × (resolve_channel_permissions u c db ≡ some bits)
        × (has bits send_messages ≡ true))
      × (validate_message_content content ≡ ok tt)
      × (m.content ≡ trim content)
      × (m.author_id ≡ u)
      × (m.scope_id ≡ c)
      × (m.deleted_at ≡ none)
      × (exists_where (λ x. x.id == m.id) db.messages ≡ false)
      × ((create_message env u c content db).1 ≡ record db { messages = m ∷ db.messages })
unfolding create_message require_channel_permissions repo_create_message
create_message_by_sender env u c content db m h =
    elim (Option-cases (resolve_channel_permissions u c db)) [
      | inl k ↦ absurd (ground arith)
      | inr (bits, k) ↦ (
        (bits, k, ground arith),
        ground arith,
        ground arith,
        ground arith,
        ground arith,
        ground arith,
        ground arith,
        ground arith,
      )
    ]

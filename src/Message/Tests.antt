-- ===== src/Message/Tests.antt =====
-- Messages at a concrete channel.
use sagiton.Prelude.{
  is_none, ℕ, ◌+◌, ◌≡◌, refl, none, some, List, [], ◌∷◌, true, false, ◌==◌, ◌&&◌, Bool,
}
use sagiton.Prelude.Bits.{bit_not}
use sagiton.Text.{trim, len}
use sagiton.Schema.{Env, Db, MessageRecord, empty_db}
use sagiton.Shared.{ok}
use sagiton.Database.Table.{count_where, exists_where}
use sagiton.Permission.{has, send_messages}
use sagiton.Validation.{validate_message_content}
use sagiton.Guild.Permissions.{resolve_channel_permissions, adjust}
use sagiton.Message.{
  create_message, repo_create_message, rows_before, edit_message, delete_message, is_live,
  find_message_by_id, require_author, require_channel_permissions, update_message_content,
  soft_delete_message,
}
use sagiton.Message.Feed.{UniqueIds, IsNewestFirst, rows_before_lists}
use sagiton.Message.Authors.{
  IsAuthored, edit, edit_message_by_author, delete_message_by_author, create_message_by_sender,
}

abbrev env : Env
env = record { db_now = 10; now_utc = 10; new_v4 = λ i. 100 + i }

abbrev message : ℕ → ℕ → MessageRecord
message id created_at = record {
  id = id;
  scope_id = 200;
  author_id = 1;
  content = 65 ∷ [];
  created_at = created_at;
  edited_at = none;
  deleted_at = none;
}

abbrev three : List MessageRecord
three = message 5 1 ∷ message 6 3 ∷ message 7 3 ∷ []

three-UniqueIds : UniqueIds three
three-UniqueIds = ((refl, (refl, tt)), ((refl, tt), (tt, tt)))

rows_before_lists_example :
    IsNewestFirst (rows_before 200 none three)
    × ((p : MessageRecord → Bool)
        → count_where p (rows_before 200 none three)
          ≡ count_where (λ m. (m.scope_id == 200 && is_none m.deleted_at) && p m) three)
rows_before_lists_example = rows_before_lists 200 three three-UniqueIds

-- User 1 is a member of guild 100 with the default role.
abbrev talk : Db
talk = record empty_db {
  users = record { id = 1; username = 65 ∷ []; email = none; password_hash = [] } ∷ [];
  guilds = record { id = 100; name = 65 ∷ []; owner_id = 1; created_at = 10 } ∷ [];
  guild_members = record { scope_id = 100; user_id = 1 } ∷ [];
  roles = record { id = 101; guild_id = 100; permissions = 3; is_default = true } ∷ [];
  member_roles = record { guild_id = 100; user_id = 1; role_id = 101 } ∷ [];
  channels =
      record { id = 200; guild_id = 100; name = 67 ∷ []; position = 0; created_at = 10 } ∷ [];
  messages = three;
}

edit_message_by_author_example :
    (m : MessageRecord) × IsAuthored 1 6 talk m
    × ((edit_message env 1 6 (66 ∷ []) talk).0 ≡ ok (edit env 1 6 (66 ∷ []) talk m))
    × (find_message_by_id 6 (edit_message env 1 6 (66 ∷ []) talk).1
        ≡ some (record m { content = trim (66 ∷ []); edited_at = some env.db_now }))
    × ((other : ℕ)
        → (6 == other) ≡ false
        → find_message_by_id other (edit_message env 1 6 (66 ∷ []) talk).1
          ≡ find_message_by_id other talk)
unfolding edit_message require_author require_channel_permissions resolve_channel_permissions adjust
    bit_not has validate_message_content update_message_content trim len
edit_message_by_author_example = edit_message_by_author env 1 6 (66 ∷ []) talk refl

delete_message_by_author_example :
    (m : MessageRecord) × IsAuthored 1 6 talk m
    × (exists_where (is_live 6) (delete_message env 1 6 talk).1.messages ≡ false)
    × (find_message_by_id 6 (delete_message env 1 6 talk).1
        ≡ some (record m { deleted_at = some env.db_now }))
    × ((other : ℕ)
        → (6 == other) ≡ false
        → find_message_by_id other (delete_message env 1 6 talk).1 ≡ find_message_by_id other talk)
unfolding delete_message require_author require_channel_permissions resolve_channel_permissions
    adjust bit_not has soft_delete_message
delete_message_by_author_example = delete_message_by_author env 1 6 talk refl

abbrev posted : MessageRecord
posted = record {
  id = 100;
  scope_id = 200;
  author_id = 1;
  content = 66 ∷ [];
  created_at = 10;
  edited_at = none;
  deleted_at = none;
}

create_message_by_sender_example :
    ((bits : ℕ) × (resolve_channel_permissions 1 200 talk ≡ some bits)
      × (has bits send_messages ≡ true))
    × (validate_message_content (66 ∷ []) ≡ ok tt)
    × (posted.content ≡ trim (66 ∷ []))
    × (posted.author_id ≡ 1)
    × (posted.scope_id ≡ 200)
    × (posted.deleted_at ≡ none)
    × (exists_where (λ x. x.id == posted.id) talk.messages ≡ false)
    × ((create_message env 1 200 (66 ∷ []) talk).1
        ≡ record talk { messages = posted ∷ talk.messages })
unfolding create_message require_channel_permissions resolve_channel_permissions adjust bit_not has
    validate_message_content repo_create_message trim len
create_message_by_sender_example = create_message_by_sender env 1 200 (66 ∷ []) talk posted refl

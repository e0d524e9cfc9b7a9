-- ===== src/Conversation/Group.antt =====
-- Groups: threads with an owner, which users are added to, join by an invite and leave.
pub mod Invite
pub mod Steps
pub mod Caps
pub mod Owners
use sagiton.Prelude.{
  ℕ, ◌+◌, Bool, true, false, not, ◌&&◌, Option, none, some, List, [], ◌∷◌, ltb, ◌==◌, if◌then◌else◌,
  is_some, is_none,
}
use sagiton.Prelude.Int.{ℤ}
use sagiton.Text.{Text, trim, text_eq, is_empty}
use sagiton.Shared.{ok, err, text, validation, conflict, forbidden, not_found}
use sagiton.Database.{Tx, pure, lift, gets, or_raise, transaction, ◌>>=◌, ◌>>◌, refuse_if, modify}
use sagiton.Database.Table.{find_where, exists_where, select_where, update_where, delete_where}
use sagiton.Schema.{
  Env, Db, DirectStatus, ThreadKind, direct, group, ThreadRow, MemberRow, InviteRow,
}
use sagiton.Validation.{
  validate_group_name, normalize_member_ids, validate_max_uses, normalize_invite_expiry,
}
use sagiton.Guild.{is_used_up, cap_of}
use sagiton.Conversation.{
  is_group, is_member_of, is_thread_member, has_user, raise_db, raise_missing, has_unread,
  latest_first,
}

pub record GroupThreadSummary : Type 0 where
  pub id : ℕ
  pub name : Text
  pub owner_id : ℕ
  pub created_at : ℕ
  pub has_unread : Bool

-- WHERE t.id = thread_id AND t.kind = 'GROUP'
abbrev pub is_group_at : ℕ → ThreadRow → Bool
is_group_at thread_id t = t.id == thread_id && is_group t.kind

abbrev pub find_group : ℕ → Db → Option ThreadRow
find_group thread_id db = find_where (is_group_at thread_id) db.threads

abbrev pub has_owner : ℕ → ThreadKind → Bool
has_owner u (direct _ _) = false
has_owner u (group _ owner_id) = owner_id == u

-- `is_group_owner`.
unfoldable pub is_group_owner : (thread_id user_id : ℕ) → Db → Bool
is_group_owner thread_id u db =
    exists_where (λ t. t.id == thread_id && has_owner u t.kind) db.threads

-- The columns of a summary of a group.
abbrev pub summarize_group : (has_unread : Bool) → ThreadRow → Option GroupThreadSummary
summarize_group unread t = elim t.kind [
  | direct _ _ ↦ none
  | group name owner_id ↦ some (record {
    id = t.id;
    name = name;
    owner_id = owner_id;
    created_at = t.created_at;
    has_unread = unread;
  })
]

abbrev pub summarize_groups : ℕ → Db → List ThreadRow → List GroupThreadSummary
unfolding has_unread
summarize_groups u db [] = []
summarize_groups u db (t ∷ rows) =
    let rest = summarize_groups u db rows in
    elim (summarize_group (has_unread t.id u db) t) [ none ↦ rest | some s ↦ s ∷ rest ]

-- `list_group_threads` of the repository.
unfoldable pub repo_list_group_threads : ℕ → Db → List GroupThreadSummary
unfolding has_unread
repo_list_group_threads u db =
    summarize_groups u db
      (latest_first (select_where (λ t. is_group t.kind && is_thread_member t.id u db) db.threads))

abbrev summarize_found : ℕ → Db → Option ThreadRow → Option GroupThreadSummary
unfolding has_unread
summarize_found u db none = none
summarize_found u db (some t) = summarize_group (has_unread t.id u db) t

-- `find_group_thread_for_member`.
unfoldable pub find_group_thread_for_member :
    (thread_id user_id : ℕ) → Db → Option GroupThreadSummary
unfolding has_unread
find_group_thread_for_member thread_id u db =
    summarize_found u db
      (find_where (λ t. is_group_at thread_id t && is_thread_member t.id u db) db.threads)

-- INSERT INTO thread_members, under the primary key and the references to the thread and the user;
-- `on_duplicate` is what is made of a unique violation. Whether a row was inserted.
abbrev pub insert_member : Tx Db Bool → (thread_id user_id : ℕ) → Tx Db Bool
insert_member on_duplicate t u db =
    if is_thread_member t u db
    then on_duplicate db
    else if exists_where (λ r. r.id == t) db.threads && has_user u db
    then (
      ok true,
      record db { thread_members = record { scope_id = t; user_id = u } ∷ db.thread_members },
    )
    else raise_missing db

-- … ON CONFLICT DO NOTHING
abbrev pub insert_member_or_nothing : (thread_id user_id : ℕ) → Tx Db Bool
insert_member_or_nothing = insert_member (λ db. (ok false, db))

-- … SELECT thread, member FROM UNNEST(members) … ON CONFLICT DO NOTHING
unfoldable pub insert_members : ℕ → List ℕ → Tx Db Unit
insert_members t [] = pure tt
insert_members t (u ∷ us) = do insert_member_or_nothing t u; insert_members t us

abbrev pub new_group : Env → (owner_id : ℕ) → Text → ThreadRow
new_group env owner_id name = record {
  id = env.new_v4 0;
  kind = group name owner_id;
  direct_status = DirectStatus.active;
  requested_by = none;
  accepted_at = none;
  created_at = env.db_now;
}

-- The INSERT of `create_group_thread`.
unfoldable pub insert_group : ThreadRow → (owner_id : ℕ) → Tx Db Unit
insert_group row owner_id db =
    if exists_where (λ t. t.id == row.id) db.threads
    then raise_db db
    else if has_user owner_id db
    then (ok tt, record db { threads = row ∷ db.threads })
    else raise_missing db

-- `SqlxConversationRepository::create_group_thread`.
unfoldable pub repo_create_group_thread : Env → ℕ → Text → List ℕ → Tx Db GroupThreadSummary
repo_create_group_thread env owner_id name members = transaction (do
  insert_group (new_group env owner_id name) owner_id
  insert_member_or_nothing (env.new_v4 0) owner_id
  insert_members (env.new_v4 0) members
  pure (record {
    id = env.new_v4 0;
    name = name;
    owner_id = owner_id;
    created_at = env.db_now;
    has_unread = false;
  }))

-- `add_group_member` of the repository: two statements on the pool.
unfoldable pub repo_add_group_member : (thread_id user_id : ℕ) → Tx Db Bool
repo_add_group_member thread_id u = do
  found ← gets (λ db. exists_where (is_group_at thread_id) db.threads)
  refuse_if (not found) (not_found (text "group thread not found"))
  insert_member (λ db. (err (conflict (text "user is already a group member")), db)) thread_id u

-- `remove_group_member`: whether a row was deleted.
unfoldable pub remove_group_member : (thread_id user_id : ℕ) → Tx Db Bool
remove_group_member thread_id u db =
    if exists_where (is_group_at thread_id) db.threads
    then (
      ok (is_thread_member thread_id u db),
      record db { thread_members = delete_where (is_member_of thread_id u) db.thread_members },
    )
    else (ok false, db)

-- The use cases.
unfoldable pub create_group_thread : Env → ℕ → Text → List ℕ → Tx Db GroupThreadSummary
create_group_thread env owner_id name member_user_ids = do
  lift (validate_group_name name)
  members ← lift (normalize_member_ids owner_id member_user_ids)
  repo_create_group_thread env owner_id (trim name) members

unfoldable pub list_group_threads : ℕ → Tx Db (List GroupThreadSummary)
list_group_threads u = gets (repo_list_group_threads u)

unfoldable pub get_group_thread : (thread_id user_id : ℕ) → Tx Db GroupThreadSummary
get_group_thread thread_id u = do
  found ← gets (find_group_thread_for_member thread_id u)
  or_raise found (not_found (text "group thread not found"))

unfoldable pub add_group_member : (actor thread_id user_id : ℕ) → Tx Db Bool
add_group_member actor thread_id u = do
  owner ← gets (is_group_owner thread_id actor)
  refuse_if (not owner) (forbidden (text "only group owner can add members"))
  repo_add_group_member thread_id u

unfoldable pub leave_group : (user_id thread_id : ℕ) → Tx Db Unit
leave_group u thread_id = do
  owner ← gets (is_group_owner thread_id u)
  refuse_if owner (validation (text "group owner cannot leave group"))
  removed ← remove_group_member thread_id u
  refuse_if (not removed) (not_found (text "group membership not found"))

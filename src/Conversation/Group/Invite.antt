-- ===== src/Conversation/Group/Invite.antt =====
-- The invites of groups.
use sagiton.Prelude.{
  ℕ, ◌+◌, false, not, Option, none, some, ◌∷◌, ltb, if◌then◌else◌, is_some, is_none,
}
use sagiton.Prelude.Int.{ℤ}
use sagiton.Text.{Text, trim, text_eq, is_empty}
use sagiton.Shared.{ok, err, text, validation, forbidden, not_found}
use sagiton.Database.{Tx, lift, gets, or_raise, transaction, ◌>>=◌, ◌>>◌, refuse_if, modify}
use sagiton.Database.Table.{find_where, exists_where, update_where}
use sagiton.Schema.{Env, Db, ThreadRow, InviteRow}
use sagiton.Validation.{validate_max_uses, normalize_invite_expiry}
use sagiton.Guild.{is_used_up, cap_of}
use sagiton.Conversation.{has_user, raise_db, raise_missing}
use sagiton.Conversation.Group.{
  GroupThreadSummary, is_group_at, find_group, is_group_owner, summarize_group,
  find_group_thread_for_member, insert_member_or_nothing,
}

-- `create_group_invite` of the repository: the row is inserted for a group only.
unfoldable pub repo_create_group_invite :
    Env → (thread_id created_by : ℕ) → Text → (expires_at : ℕ) → Option ℕ → Tx Db InviteRow
unfolding text_eq
repo_create_group_invite env thread_id created_by token expires_at max_uses db =
    let invite : InviteRow = record {
      token = token;
      scope_id = thread_id;
      created_by = created_by;
      expires_at = expires_at;
      max_uses = max_uses;
      used_count = 0;
      revoked_at = none;
      created_at = env.db_now;
    } in
    if not (exists_where (is_group_at thread_id) db.threads)
    then (err (not_found (text "group thread not found")), db)
    else if exists_where (λ i. text_eq i.token token) db.group_invites
    then raise_db db
    else if has_user created_by db
    then (ok invite, record db { group_invites = invite ∷ db.group_invites })
    else raise_missing db

abbrev pub find_group_invite : Text → Db → Option InviteRow
find_group_invite token db = find_where (λ i. text_eq i.token token) db.group_invites

-- UPDATE group_invites SET used_count = used_count + 1 WHERE token = …
abbrev pub count_group_use : Text → Db → Db
count_group_use token db = record db {
  group_invites =
      update_where (λ i. text_eq i.token token) (λ i. record i { used_count = i.used_count + 1 })
        db.group_invites;
}

-- What `join_group_via_invite` does with the row of an invite and its group.
unfoldable pub join_group_found : Env → Text → ℕ → InviteRow → ThreadRow → Tx Db GroupThreadSummary
join_group_found env token u invite t = do
  refuse_if (is_some invite.revoked_at) (not_found (text "invite not found"))
  refuse_if (ltb invite.expires_at env.now_utc) (validation (text "invite token is expired"))
  refuse_if (is_used_up invite.max_uses invite.used_count)
      (validation (text "invite token usage limit exceeded"))
  inserted ← insert_member_or_nothing invite.scope_id u
  modify (λ db. if inserted then count_group_use token db else db)
  or_raise (summarize_group false t) (not_found (text "invite not found"))

-- The row of the join of `group_invites` and `threads`.
unfoldable pub join_group_row : Env → Text → ℕ → Option InviteRow → Tx Db GroupThreadSummary
join_group_row env token u none = λ db. (err (not_found (text "invite not found")), db)
join_group_row env token u (some invite) = do
  t ← gets (find_group invite.scope_id)
  t ← or_raise t (not_found (text "invite not found"))
  join_group_found env token u invite t

-- `join_group_via_invite`.
unfoldable pub join_group_via_invite : Env → Text → ℕ → Tx Db GroupThreadSummary
join_group_via_invite env token u =
    transaction (do invite ← gets (find_group_invite token); join_group_row env token u invite)

-- `token` is the text of the UUID that is drawn for it.
unfoldable pub create_group_invite :
    Env → Text → (actor thread_id : ℕ) → Option ℕ → Option ℤ → Tx Db InviteRow
create_group_invite env token actor thread_id expires_in_seconds max_uses = do
  found ← gets (find_group_thread_for_member thread_id actor)
  refuse_if (is_none found) (not_found (text "group thread not found"))
  owner ← gets (is_group_owner thread_id actor)
  refuse_if (not owner) (forbidden (text "only group owner can create invite"))
  lift (validate_max_uses max_uses)
  repo_create_group_invite env thread_id actor token
      (env.now_utc + normalize_invite_expiry expires_in_seconds) (cap_of max_uses)

unfoldable pub join_group_invite : Env → ℕ → Text → Tx Db GroupThreadSummary
join_group_invite env u token = do
  refuse_if (is_empty (trim token)) (validation (text "invite token is required"))
  join_group_via_invite env (trim token) u

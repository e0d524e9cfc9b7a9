-- ===== src/Conversation/Group/Caps.antt =====
-- The uses of group invites are never more than their limit.
use sagiton.Prelude.{
  not, is_none, ℕ, ◌+◌, ◌≡◌, refl, ◌⊎◌, false, Option, some, List, [], ◌∷◌, arith, Bool-cases,
  Option-cases, inl, inr,
}
use sagiton.Prelude.Int.{ℤ}
use sagiton.Shared.{is_ok, text, not_found, forbidden}
use sagiton.Database.Preserve.{
  Preserves, pure-Preserves, lift-Preserves, gets-Preserves, transaction-Preserves,
  refuse_if-Preserves, bind-Preserves,
}
use sagiton.Database.Table.{exists_where}
use sagiton.Schema.{Env, Db, InviteRow, ThreadRow}
use sagiton.Text.{Text, trim, text_eq, is_empty}
use sagiton.Validation.{
  validate_group_name, normalize_member_ids, validate_max_uses, normalize_invite_expiry,
}
use sagiton.Guild.{cap_of, is_used_up}
use sagiton.Invite.{IsCapped, counted, counted-IsCapped, unused-IsCapped}
use sagiton.Conversation.{has_user, is_thread_member}
use sagiton.Conversation.Group.{
  is_group_at, is_group_owner, find_group, new_group, insert_member_or_nothing,
  find_group_thread_for_member, insert_group, insert_members, repo_create_group_thread,
  create_group_thread, repo_add_group_member, add_group_member, remove_group_member, leave_group,
}
use sagiton.Conversation.Group.Invite.{
  find_group_invite, repo_create_group_invite, create_group_invite, join_group_found,
  join_group_row, join_group_via_invite, join_group_invite,
}
use sagiton.Conversation.Group.Steps.{
  Step, create_group_thread_step, add_group_member_step, leave_group_step, create_group_invite_step,
  join_group_invite_step,
}

-- The invites of the database are `rows`.
abbrev HasInvites : List InviteRow → Db → Type 0
HasInvites rows db = db.group_invites ≡ rows

insert_member_or_nothing_invites :
    (rows : List InviteRow) (t u : ℕ) → Preserves (HasInvites rows) (insert_member_or_nothing t u)
unfolding Preserves
insert_member_or_nothing_invites rows t u db h = ground arith

insert_members_invites :
    (rows : List InviteRow) (t : ℕ) (us : List ℕ)
    → Preserves (HasInvites rows) (insert_members t us)
unfolding Preserves insert_members
insert_members_invites rows t [] = λ db h. h
insert_members_invites rows t (u ∷ us) =
    bind-Preserves (HasInvites rows) (insert_member_or_nothing t u) (λ _. insert_members t us)
      (insert_member_or_nothing_invites rows t u) (λ _. insert_members_invites rows t us)

insert_group_invites :
    (rows : List InviteRow) (row : ThreadRow) (u : ℕ)
    → Preserves (HasInvites rows) (insert_group row u)
unfolding Preserves insert_group
insert_group_invites rows row u db h = ground arith

create_group_thread_invites :
    (rows : List InviteRow) (env : Env) (u : ℕ) (name : Text) (members : List ℕ)
    → Preserves (HasInvites rows) (create_group_thread env u name members)
unfolding create_group_thread repo_create_group_thread
create_group_thread_invites rows env u name members =
    let I = HasInvites rows in
    bind-Preserves I _ _ (lift-Preserves I (validate_group_name name)) λ _.
      bind-Preserves I _ _ (lift-Preserves I (normalize_member_ids u members)) λ ms.
        transaction-Preserves I _ (
          bind-Preserves I _ _ (insert_group_invites rows (new_group env u (trim name)) u) λ _.
            bind-Preserves I _ _ (insert_member_or_nothing_invites rows (env.new_v4 0) u) λ _.
              bind-Preserves I _ _ (insert_members_invites rows (env.new_v4 0) ms)
                λ _. pure-Preserves I _)

add_group_member_invites :
    (a t u : ℕ) (db : Db) → (add_group_member a t u db).1.group_invites ≡ db.group_invites
unfolding add_group_member repo_add_group_member
add_group_member_invites a t u db = ground arith

leave_group_invites : (u t : ℕ) (db : Db) → (leave_group u t db).1.group_invites ≡ db.group_invites
unfolding leave_group remove_group_member
leave_group_invites u t db = ground arith

repo_create_group_invite-IsCapped :
    (env : Env) (t u : ℕ) (token : Text) (expires : ℕ) (cap : Option ℕ)
    → Preserves
        (λ db. IsCapped db.group_invites)
        (repo_create_group_invite env t u token expires cap)
unfolding Preserves repo_create_group_invite
repo_create_group_invite-IsCapped env t u token expires cap db c =
    elim (Bool-cases (exists_where (is_group_at t) db.threads)) [
      | inr e ↦ rw e c
      | inl e ↦ elim (Bool-cases (exists_where (λ i. text_eq i.token token) db.group_invites)) [
        | inl k ↦ rw (e, k) c
        | inr k ↦ elim (Bool-cases (has_user u db)) [
          | inl m ↦ rw (e, k, m) (unused-IsCapped db.group_invites _ refl c)
          | inr m ↦ rw (e, k, m) c
        ]
      ]
    ]

create_group_invite-IsCapped :
    (env : Env) (token : Text) (u t : ℕ) (expires : Option ℕ) (max_uses : Option ℤ)
    → Preserves
        (λ db. IsCapped db.group_invites)
        (create_group_invite env token u t expires max_uses)
unfolding create_group_invite
create_group_invite-IsCapped env token u t expires max_uses =
    let I : Db → Type 0 = λ db. IsCapped db.group_invites in
    bind-Preserves I _ _ (gets-Preserves I (find_group_thread_for_member t u)) λ found.
      bind-Preserves I _ _
        (refuse_if-Preserves I (is_none found) (not_found (text "group thread not found")))
        λ _. bind-Preserves I _ _ (gets-Preserves I (is_group_owner t u)) λ owner.
          bind-Preserves I _ _
            (refuse_if-Preserves I (not owner)
              (forbidden (text "only group owner can create invite")))
            λ _. bind-Preserves I _ _ (lift-Preserves I (validate_max_uses max_uses)) λ _.
              repo_create_group_invite-IsCapped env t u token
                (env.now_utc + normalize_invite_expiry expires) (cap_of max_uses)

-- What joining leaves of the invites: the same rows, or one more use of an invite that is not used up.
abbrev Counts : Text → Db → Db → Type 0
Counts token db db' =
    (db'.group_invites ≡ db.group_invites)
    ⊎ ((invite : InviteRow) × (find_group_invite token db ≡ some invite)
        × (is_used_up invite.max_uses invite.used_count ≡ false)
        × (db'.group_invites ≡ counted token db.group_invites))

join_group_via_invite-Counts :
    (env : Env) (token : Text) (u : ℕ) (db : Db)
    → Counts token db (join_group_via_invite env token u db).1
unfolding join_group_via_invite join_group_row join_group_found
join_group_via_invite-Counts env token u db = elim (Option-cases (find_group_invite token db)) [
  | inl e ↦ inl (ground arith)
  | inr (invite, e) ↦ elim (Option-cases (find_group invite.scope_id db)) [
    | inl k ↦ inl (ground arith)
    | inr (t, k) ↦ elim (Bool-cases (is_thread_member invite.scope_id u db)) [
      | inl h ↦ inl (ground arith)
      | inr h ↦ elim (Bool-cases (is_ok (join_group_found env token u invite t db).0)) [
        | inl m ↦ inr (invite, e, ground arith, ground arith)
        | inr m ↦ inl (ground arith)
      ]
    ]
  ]
]

join_group_via_invite-IsCapped :
    (env : Env) (token : Text) (u : ℕ) (db : Db)
    → IsCapped db.group_invites
    → IsCapped (join_group_via_invite env token u db).1.group_invites
join_group_via_invite-IsCapped env token u db c =
    elim (join_group_via_invite-Counts env token u db) [
      | inl e ↦ rw e c
      | inr (invite, found, left, e) ↦
          rw e (counted-IsCapped token db.group_invites invite found left c)
    ]

join_group_invite-IsCapped :
    (env : Env) (u : ℕ) (token : Text) (db : Db)
    → IsCapped db.group_invites
    → IsCapped (join_group_invite env u token db).1.group_invites
unfolding join_group_invite
join_group_invite-IsCapped env u token db c = elim (Bool-cases (is_empty (trim token))) [
  | inl e ↦ rw e c
  | inr e ↦ rw e (join_group_via_invite-IsCapped env (trim token) u db c)
]

pub Step-IsCapped : {t u : Db} → Step t u → IsCapped t.group_invites → IsCapped u.group_invites
unfolding Preserves
Step-IsCapped (create_group_thread_step env u name members db) c =
    rw (create_group_thread_invites db.group_invites env u name members db refl) c
Step-IsCapped (add_group_member_step a t u db) c = rw (add_group_member_invites a t u db) c
Step-IsCapped (leave_group_step u t db) c = rw (leave_group_invites u t db) c
Step-IsCapped (create_group_invite_step env token u t expires max_uses db) c =
    create_group_invite-IsCapped env token u t expires max_uses db c
Step-IsCapped (join_group_invite_step env u token db) c =
    join_group_invite-IsCapped env u token db c

-- ===== src/Conversation/Group/Owners.antt =====
-- The owner of a group is a member of it, whatever is done with groups.
use sagiton.Prelude.{
  ℕ, ◌≡◌, refl, ◌⊎◌, ltb, if◌then◌else◌, true, false, is_some, ◌&&◌, ◌==◌, Option, none, some, List,
  [], ◌∷◌, arith, ==_refl, ==_iff,
}
use sagiton.Prelude.Int.{ℤ}
use sagiton.Shared.{validation, text, not_found}
use sagiton.Database.Preserve.{
  Preserves, pure-Preserves, lift-Preserves, gets-Preserves, transaction-Preserves,
  refuse_if-Preserves, bind-Preserves, or_raise-Preserves, modify-Preserves, Leads, bind-Leads,
  Preserves-Leads, transaction-Leads,
}
use sagiton.Database.Table.{exists_where, delete_where}
use sagiton.Schema.{Env, Db, InviteRow, ThreadRow, MemberRow}
use sagiton.Text.{Text, trim, is_empty}
use sagiton.Validation.{validate_group_name, normalize_member_ids}
use sagiton.Guild.{is_used_up}
use sagiton.Invite.{IsCapped}
use sagiton.Conversation.{is_thread_member, is_member_of}
use sagiton.Conversation.Group.{
  is_group_owner, find_group, new_group, insert_group, insert_member_or_nothing, insert_members,
  repo_create_group_thread, create_group_thread, repo_add_group_member, add_group_member,
  remove_group_member, leave_group, summarize_group,
}
use sagiton.Conversation.Group.Invite.{
  find_group_invite, repo_create_group_invite, create_group_invite, count_group_use,
  join_group_found, join_group_row, join_group_via_invite, join_group_invite,
}
use sagiton.Conversation.Group.Steps.{
  Step, Reach, create_group_thread_step, add_group_member_step, leave_group_step,
  create_group_invite_step, join_group_invite_step, start, next,
}
use sagiton.Conversation.Group.Caps.{Step-IsCapped}

-- The owner of every group is one of its members.
abbrev pub IsOwned : Db → Type 0
IsOwned db = (t u : ℕ) → is_group_owner t u db ≡ true → is_thread_member t u db ≡ true

-- The threads are `rows`, and the members of before are members.
abbrev Keeps : Db → Db → Type 0
Keeps db db' =
    (db'.threads ≡ db.threads)
    × ((t u : ℕ) → is_thread_member t u db ≡ true → is_thread_member t u db' ≡ true)

Keeps-IsOwned : (db db' : Db) → Keeps db db' → IsOwned db → IsOwned db'
unfolding is_group_owner
Keeps-IsOwned db db' k c t u e = k.1 t u (c t u (ground (arith, k.0)))

insert_member_or_nothing-Keeps :
    (s : Db) (t u : ℕ) → Preserves (Keeps s) (insert_member_or_nothing t u)
unfolding Preserves
insert_member_or_nothing-Keeps s t u db k =
    (ground (arith, k.0), λ x y h. ground (arith, k.1 x y h))

insert_members-Keeps : (s : Db) (t : ℕ) (us : List ℕ) → Preserves (Keeps s) (insert_members t us)
unfolding Preserves insert_members
insert_members-Keeps s t [] = λ db h. h
insert_members-Keeps s t (u ∷ us) =
    bind-Preserves (Keeps s) (insert_member_or_nothing t u) (λ _. insert_members t us)
      (insert_member_or_nothing-Keeps s t u) (λ _. insert_members-Keeps s t us)

add_group_member-Keeps : (a t u : ℕ) (db : Db) → Keeps db (add_group_member a t u db).1
unfolding add_group_member repo_add_group_member
add_group_member-Keeps a t u db = (ground arith, λ x y h. ground (arith, h))

create_group_invite-Keeps :
    (env : Env) (token : Text) (u t : ℕ) (expires : Option ℕ) (max_uses : Option ℤ) (db : Db)
    → Keeps db (create_group_invite env token u t expires max_uses db).1
unfolding create_group_invite repo_create_group_invite
create_group_invite-Keeps env token u t expires max_uses db =
    (ground arith, λ x y h. ground (arith, h))

join_group_found-Keeps :
    (s : Db) (env : Env) (token : Text) (u : ℕ) (invite : InviteRow) (t : ThreadRow)
    → Preserves (Keeps s) (join_group_found env token u invite t)
unfolding join_group_found
join_group_found-Keeps s env token u invite t =
    let I = Keeps s in
    bind-Preserves I _ _
      (refuse_if-Preserves I (is_some invite.revoked_at) (not_found (text "invite not found")))
      λ _.
        bind-Preserves I _ _
          (refuse_if-Preserves I (ltb invite.expires_at env.now_utc)
            (validation (text "invite token is expired")))
          λ _.
            bind-Preserves I _ _
              (refuse_if-Preserves I (is_used_up invite.max_uses invite.used_count)
                (validation (text "invite token usage limit exceeded")))
              λ _.
                bind-Preserves I _ _ (insert_member_or_nothing-Keeps s invite.scope_id u)
                  λ inserted.
                    bind-Preserves I _ _
                      (modify-Preserves I (λ db. if inserted then count_group_use token db else db)
                        (λ db k. (ground (arith, k.0), λ x y h. ground (arith, k.1 x y h))))
                      λ _.
                        or_raise-Preserves I (summarize_group false t)
                          (not_found (text "invite not found"))

join_group_row-Keeps :
    (s : Db) (env : Env) (token : Text) (u : ℕ) (invite : Option InviteRow)
    → Preserves (Keeps s) (join_group_row env token u invite)
unfolding join_group_row
join_group_row-Keeps s env token u none = unfold Preserves in λ db k. k
join_group_row-Keeps s env token u (some invite) =
    let I = Keeps s in
    bind-Preserves I _ _ (gets-Preserves I (find_group invite.scope_id)) λ t.
      bind-Preserves I _ _ (or_raise-Preserves I t (not_found (text "invite not found")))
        λ t. join_group_found-Keeps s env token u invite t

join_group_invite-Keeps :
    (s : Db) (env : Env) (u : ℕ) (token : Text)
    → Preserves (Keeps s) (join_group_invite env u token)
unfolding join_group_invite join_group_via_invite
join_group_invite-Keeps s env u token =
    let I = Keeps s in
    bind-Preserves I _ _
      (refuse_if-Preserves I (is_empty (trim token)) (validation (text "invite token is required")))
      λ _. transaction-Preserves I _ (
        bind-Preserves I _ _ (gets-Preserves I (find_group_invite (trim token)))
          λ invite. join_group_row-Keeps s env (trim token) u invite)

-- The same, but for the owner `u` of the thread `t`, who still has to join.
abbrev IsOwnedBut : (thread_id owner_id : ℕ) → Db → Type 0
IsOwnedBut t u db =
    (x y : ℕ)
    → is_group_owner x y db ≡ true
    → ((x ≡ t) × (y ≡ u)) ⊎ (is_thread_member x y db ≡ true)

insert_group-Leads :
    (env : Env) (u : ℕ) (name : Text)
    → Leads IsOwned (IsOwnedBut (env.new_v4 0) u) (insert_group (new_group env u name) u)
unfolding Leads insert_group is_group_owner
insert_group-Leads env u name db c r e x y h =
    ground (arith, c x y, (==_iff (env.new_v4 0) x).0, (==_iff u y).0)

owner-Leads : (t u : ℕ) → Leads (IsOwnedBut t u) IsOwned (insert_member_or_nothing t u)
unfolding Leads is_group_owner
owner-Leads t u db c r e x y h = ground (arith, c x y, ==_refl t, ==_refl u)

insert_members-IsOwned : (t : ℕ) (us : List ℕ) → Preserves IsOwned (insert_members t us)
unfolding Preserves
insert_members-IsOwned t us db c =
    Keeps-IsOwned db (insert_members t us db).1 (insert_members-Keeps db t us db (refl, λ x y h. h))
      c

create_group_thread-IsOwned :
    (env : Env) (u : ℕ) (name : Text) (members : List ℕ)
    → Preserves IsOwned (create_group_thread env u name members)
unfolding create_group_thread repo_create_group_thread
create_group_thread-IsOwned env u name members =
    let I = IsOwned in
    let t = env.new_v4 0 in
    bind-Preserves I _ _ (lift-Preserves I (validate_group_name name)) λ _.
      bind-Preserves I _ _ (lift-Preserves I (normalize_member_ids u members)) λ ms.
        transaction-Leads I _ (
          bind-Leads I I (IsOwnedBut t u) _ _ (insert_group-Leads env u (trim name)) λ _.
            bind-Leads I (IsOwnedBut t u) I _ _ (owner-Leads t u) λ _.
              Preserves-Leads I _
                (bind-Preserves I _ _ (insert_members-IsOwned t ms) λ _. pure-Preserves I _))

still_member :
    (t u x y : ℕ) (rows : List MemberRow)
    → (x == t && y == u) ≡ false
    → exists_where (is_member_of x y) rows ≡ true
    → exists_where (is_member_of x y) (delete_where (is_member_of t u) rows) ≡ true
still_member t u x y [] k e = absurd (ground arith)
still_member t u x y (r ∷ rows) k e =
    ground (arith, still_member t u x y rows k, (==_iff r.scope_id x).0, (==_iff r.user_id y).0)

leave_group-IsOwned : (u t : ℕ) (db : Db) → IsOwned db → IsOwned (leave_group u t db).1
unfolding leave_group remove_group_member is_group_owner
leave_group-IsOwned u t db c x y e =
    ground (arith, c x y, still_member t u x y db.thread_members, (==_iff x t).0, (==_iff y u).0)

Step-IsOwned : {s t : Db} → Step s t → IsOwned s → IsOwned t
unfolding Preserves
Step-IsOwned (create_group_thread_step env u name members db) c =
    create_group_thread-IsOwned env u name members db c
Step-IsOwned (add_group_member_step a t u db) c =
    Keeps-IsOwned db (add_group_member a t u db).1 (add_group_member-Keeps a t u db) c
Step-IsOwned (leave_group_step u t db) c = leave_group-IsOwned u t db c
Step-IsOwned (create_group_invite_step env token u t expires max_uses db) c =
    Keeps-IsOwned db (create_group_invite env token u t expires max_uses db).1
      (create_group_invite-Keeps env token u t expires max_uses db) c
Step-IsOwned (join_group_invite_step env u token db) c =
    Keeps-IsOwned db (join_group_invite env u token db).1
      (join_group_invite-Keeps db env u token db (refl, λ x y h. h)) c

-- The owner of every group is a member of it, and no group invite has been used more often than its
-- limit allows.
abbrev pub IsSound : Db → Type 0
IsSound db = IsOwned db × IsCapped db.group_invites

-- If the owner of every group is one of its members and no group invite has been used more often
-- than its limit allows, this stays so in any sequence of calls that create groups and invites, add
-- members, join by an invite and leave.
pub Reach-IsSound : {s t : Db} → IsSound s → Reach s t → IsSound t
Reach-IsSound c start = c
Reach-IsSound c (next r st) =
    let before = Reach-IsSound c r in (Step-IsOwned st before.0, Step-IsCapped st before.1)

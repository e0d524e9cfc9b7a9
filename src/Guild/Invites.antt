-- ===== src/Guild/Invites.antt =====
-- What joining a guild by an invite does.
use mathlib.Core.Path.{subst}
use sagiton.Prelude.{
  ℕ, ◌+◌, ◌≤◌, ◌<◌, ◌≡◌, ◌⊎◌, List, refl, Bool, true, false, ◌&&◌, ◌==◌, Option, none, some, arith,
  ltb, Option-cases, inl, inr, ==_refl,
}
use sagiton.Shared.{AppResult, ok, err}
use sagiton.Database.{roll_back}
use sagiton.Schema.{Env, Db, InviteRow, GuildSummary}
use sagiton.Text.{Text, text_eq}
use sagiton.Database.Table.{
  find_where, exists_where, update_where, find_where-update_where, find_where-holds,
}
use sagiton.Guild.{
  GuildInviteJoinResult, member_exists, find_guild, find_invite, is_used_up, count_use,
  default_role_id, attach_default_role_to_member, join_guild_found, join_guild_row,
  join_guild_via_invite,
}

is_member_refl : (g u : ℕ) → (g == g && u == u) ≡ true
is_member_refl g u = ground (arith, ==_refl g, ==_refl u)

attached :
    (g u r : ℕ) (db db' : Db)
    → attach_default_role_to_member g u r db ≡ (ok tt, db')
    → (db'.guild_members ≡ db.guild_members) × (db'.guild_invites ≡ db.guild_invites)
unfolding attach_default_role_to_member
attached g u r db db' h = ground arith

default_role_same : (g r : ℕ) (db db' : Db) → default_role_id g db ≡ (ok r, db') → db' ≡ db
unfolding default_role_id
default_role_same g r db db' h = ground arith

module _ (env : Env) (token : Text) (u : ℕ) (invite : InviteRow) (guild : GuildSummary)
    (db : Db) where
  -- What the part that runs for an invite in force reports and leaves.
  abbrev pub Joined : AppResult GuildInviteJoinResult × Db → Type 0
  Joined o =
      (member_exists invite.scope_id u db ≡ false)
      × (ltb invite.expires_at env.now_utc ≡ false)
      × (is_used_up invite.max_uses invite.used_count ≡ false)
      × (member_exists invite.scope_id u o.1 ≡ true)
      × (o.1.guild_invites ≡ (count_use token db).guild_invites)

  join_guild_found_joined :
      (r : GuildInviteJoinResult)
      → (join_guild_found env token u invite guild db).0 ≡ ok r
      → r.joined ≡ true
      → Joined (join_guild_found env token u invite guild db)
  unfolding join_guild_found default_role_id attach_default_role_to_member
  join_guild_found_joined r h k = ground (arith, is_member_refl invite.scope_id u)

  join_guild_found_same :
      (r : GuildInviteJoinResult)
      → (join_guild_found env token u invite guild db).0 ≡ ok r
      → r.joined ≡ false
      → ((join_guild_found env token u invite guild db).1 ≡ db)
        × (member_exists invite.scope_id u db ≡ true)
  unfolding join_guild_found default_role_id attach_default_role_to_member
  join_guild_found_same r h k = ground arith

-- An invite without a limit, or with one that it has not reached.
abbrev pub HasUsesLeft : InviteRow → Type 0
HasUsesLeft invite =
    (invite.max_uses ≡ none)
    ⊎ ((cap : ℕ) × (invite.max_uses ≡ some cap) × (invite.used_count < cap))

-- What a successful `join_guild_via_invite` rests on and leaves.
abbrev pub JoinedVia : Env → Text → ℕ → Db → Db → Type 0
JoinedVia env token u db db' =
    (invite : InviteRow) × (find_where (λ i. text_eq i.token token) db.guild_invites ≡ some invite)
    × (invite.revoked_at ≡ none)
    × (env.now_utc ≤ invite.expires_at)
    × HasUsesLeft invite
    × (exists_where (λ m. m.scope_id == invite.scope_id && m.user_id == u) db.guild_members ≡ false)
    × (exists_where (λ m. m.scope_id == invite.scope_id && m.user_id == u) db'.guild_members ≡ true)
    × (find_where (λ i. text_eq i.token token) db'.guild_invites
        ≡ some (record invite { used_count = invite.used_count + 1 }))
    × (db'.guild_invites
        ≡ update_where (λ i. text_eq i.token token)
            (λ i. record i { used_count = i.used_count + 1 }) db.guild_invites)

unused-HasUsesLeft :
    (invite : InviteRow) → is_used_up invite.max_uses invite.used_count ≡ false → HasUsesLeft invite
unused-HasUsesLeft invite h = elim (Option-cases invite.max_uses) [
  | inl e ↦ inl e
  | inr (cap, e) ↦ inr (cap, e, ground arith)
]

pub HasUsesLeft-unused :
    (invite : InviteRow) → HasUsesLeft invite → is_used_up invite.max_uses invite.used_count ≡ false
HasUsesLeft-unused invite (inl e) = rw e refl
HasUsesLeft-unused invite (inr (cap, e, h)) = rw e (ground arith)

counted_found :
    (token : Text) (rows : List InviteRow) (invite : InviteRow)
    → find_where (λ i. text_eq i.token token) rows ≡ some invite
    → find_where
        (λ i. text_eq i.token token)
        (update_where
          (λ i. text_eq i.token token)
          (λ i. record i { used_count = i.used_count + 1 })
          rows)
      ≡ some (record invite { used_count = invite.used_count + 1 })
counted_found token rows invite h = ground (
  arith,
  find_where-update_where (λ i. text_eq i.token token) (λ i. text_eq i.token token)
      (λ (i : InviteRow). record i { used_count = i.used_count + 1 }) (λ r e. refl) rows,
  find_where-holds (λ (i : InviteRow). text_eq i.token token) rows invite h,
)

abbrev pub has_joined : AppResult GuildInviteJoinResult → Bool
has_joined (ok r) = r.joined
has_joined (err e) = false

module _ (env : Env) (token : Text) (u : ℕ) (db : Db) where
  join_guild_row_joined :
      (invite : InviteRow) (r : GuildInviteJoinResult)
      → find_invite token db ≡ some invite
      → (join_guild_row env token u (some invite) db).0 ≡ ok r
      → r.joined ≡ true
      → JoinedVia env token u db (join_guild_row env token u (some invite) db).1
  unfolding join_guild_row
  join_guild_row_joined invite r found h k = elim (Option-cases (find_guild invite.scope_id db)) [
    | inl e ↦ absurd (ground arith)
    | inr (guild, e) ↦
        (let inner : (join_guild_found env token u invite guild db).0 ≡ ok r = ground arith in
          let j = join_guild_found_joined env token u invite guild db r inner k in
          let counted = counted_found token db.guild_invites invite found in
          let left : (join_guild_row env token u (some invite) db).1.guild_invites
              ≡ update_where (λ i. text_eq i.token token)
                  (λ i. record i { used_count = i.used_count + 1 }) db.guild_invites =
            ground arith in
          (
            invite,
            found,
            ground arith,
            ground arith,
            unused-HasUsesLeft invite j.2,
            j.0,
            ground arith,
            rw left counted,
            left,
          ))
  ]

  -- A user who joins a guild by an invite was not a member of its guild and is one afterwards; the
  -- invite was found under the token, was not revoked or expired, and has no limit or was used less
  -- often than its limit. Afterwards the token finds it with one use more, and every invite of another
  -- token is as it was.
  pub join_guild_via_invite_joined :
      (r : GuildInviteJoinResult)
      → (join_guild_via_invite env token u db).0 ≡ ok r
      → r.joined ≡ true
      → JoinedVia env token u db (join_guild_via_invite env token u db).1
  unfolding join_guild_via_invite join_guild_row
  join_guild_via_invite_joined r h k = elim (Option-cases (find_invite token db)) [
    | inl e ↦ absurd (ground arith)
    | inr (invite, e) ↦
        (let inner : (join_guild_row env token u (some invite) db).0 ≡ ok r = ground arith in
          let same : (join_guild_row env token u (some invite) db).1
              ≡ (join_guild_via_invite env token u db).1 =
            ground arith in
          subst (JoinedVia env token u db) same (join_guild_row_joined invite r e inner k))
  ]

  found_not_joined :
      (invite : InviteRow) (guild : GuildSummary)
      → has_joined (join_guild_found env token u invite guild db).0 ≡ false
      → (roll_back db (join_guild_found env token u invite guild db)).1 ≡ db
  unfolding join_guild_found default_role_id attach_default_role_to_member
  found_not_joined invite guild h = ground arith

  row_not_joined :
      (invite : Option InviteRow)
      → has_joined (join_guild_row env token u invite db).0 ≡ false
      → (roll_back db (join_guild_row env token u invite db)).1 ≡ db
  unfolding join_guild_row
  row_not_joined none h = refl
  row_not_joined (some invite) h = elim (Option-cases (find_guild invite.scope_id db)) [
    | inl e ↦ ground arith
    | inr (guild, e) ↦ ground (arith, found_not_joined invite guild)
  ]

  -- A call that fails, or that finds the user to be a member, leaves the database as it was.
  pub join_guild_via_invite_not_joined :
      has_joined (join_guild_via_invite env token u db).0 ≡ false
      → (join_guild_via_invite env token u db).1 ≡ db
  unfolding join_guild_via_invite
  join_guild_via_invite_not_joined h = ground (arith, row_not_joined (find_invite token db))

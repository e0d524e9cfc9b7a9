-- ===== src/Guild/Permissions.antt =====
-- `impl ChannelPermissionRepository` of
-- backend/src/infrastructure/db/repositories/guild_channel_repository.rs: what a member may do in a
-- channel, from the roles of the member and the overrides of the channel.
pub mod Precedence
use sagiton.Prelude.{
  ℕ, Bool, false, ◌&&◌, Option, none, some, List, [], ◌∷◌, bit_and, bit_or, bit_not, ◌==◌,
  if◌then◌else◌,
}
use sagiton.Database.Table.{find_where, exists_where}
use sagiton.Schema.{Db, OverrideRow, TargetType, role, member}
use sagiton.Guild.{member_exists}

-- COALESCE(BIT_OR(f), 0) over the rows that satisfy a test.
abbrev pub bit_or_where : {R : Type 0} → (R → Bool) → (R → ℕ) → List R → ℕ
bit_or_where test f [] = 0
bit_or_where test f (r ∷ rows) =
    let rest = bit_or_where test f rows in if test r then bit_or (f r) rest else rest

abbrev pub has_role : (guild_id user_id role_id : ℕ) → Db → Bool
has_role g u r db =
    exists_where (λ m. m.guild_id == g && (m.user_id == u && m.role_id == r)) db.member_roles

-- The override of a channel for a role that the member has.
abbrev pub is_role_override : (guild_id user_id channel_id : ℕ) → Db → OverrideRow → Bool
is_role_override g u c db o = elim o.target_type [
  | role ↦ o.channel_id == c && has_role g u o.target_id db
  | member ↦ false
]

abbrev pub is_member_override : (user_id channel_id : ℕ) → OverrideRow → Bool
is_member_override u c o = elim o.target_type [
  | role ↦ false
  | member ↦ o.channel_id == c && o.target_id == u
]

-- `(base & !role_deny) | role_allow`, then the same for the member.
unfoldable pub adjust : (base role_deny role_allow member_deny member_allow : ℕ) → ℕ
adjust base role_deny role_allow member_deny member_allow =
    let role_adjusted = bit_or (bit_and base (bit_not 64 role_deny)) role_allow in
    bit_or (bit_and role_adjusted (bit_not 64 member_deny)) member_allow

-- The guild of the channel, if the user is one of its members.
abbrev pub guild_of_channel : (user_id channel_id : ℕ) → Db → Option ℕ
guild_of_channel u c db =
    elim (find_where (λ ch. ch.id == c && member_exists ch.guild_id u db) db.channels) [
      | none ↦ none
      | some ch ↦ some ch.guild_id
    ]

abbrev pub effective_permissions : (guild_id user_id channel_id : ℕ) → Db → ℕ
unfolding adjust
effective_permissions g u c db =
    adjust (bit_or_where (λ r. has_role g u r.id db) (λ r. r.permissions) db.roles)
      (bit_or_where (is_role_override g u c db) (λ o. o.deny) db.channel_overrides)
      (bit_or_where (is_role_override g u c db) (λ o. o.allow) db.channel_overrides)
      (bit_or_where (is_member_override u c) (λ o. o.deny) db.channel_overrides)
      (bit_or_where (is_member_override u c) (λ o. o.allow) db.channel_overrides)

-- `let Some(guild_id) = guild_id else { return Ok(None) }`
abbrev pub permissions_in : Option ℕ → (user_id channel_id : ℕ) → Db → Option ℕ
unfolding adjust
permissions_in none u c db = none
permissions_in (some g) u c db = some (effective_permissions g u c db)

-- `resolve_channel_permissions`.
unfoldable pub resolve_channel_permissions : (user_id channel_id : ℕ) → Db → Option ℕ
unfolding adjust
resolve_channel_permissions u c db = permissions_in (guild_of_channel u c db) u c db

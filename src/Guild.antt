-- ===== src/Guild.antt =====
-- backend/src/application/use_cases/guild_channel.rs over
-- backend/src/infrastructure/db/repositories/guild_channel_repository.rs.
pub mod Permissions
pub mod Invites
pub mod Steps
pub mod Caps
pub mod Membership
pub mod Lists
mod Tests
use sagiton.Prelude.{
  ℕ, ◌+◌, Bool, true, false, not, ◌&&◌, Option, none, some, List, [], ◌∷◌, bit_or, ltb, leb, ◌==◌,
  if◌then◌else◌, is_some, max,
}
use sagiton.Prelude.Int.{ℤ, to_nat}
use sagiton.Text.{Text, trim, text_eq, is_empty}
use sagiton.Shared.{ok, err, text, validation, conflict, not_found, internal}
use sagiton.Database.{Tx, pure, lift, gets, or_raise, transaction, ◌>>=◌, ◌>>◌, refuse_if, modify}
use sagiton.Database.Table.{find_where, exists_where, update_where, delete_where}
use sagiton.Schema.{Env, Db, GuildSummary, MemberRow, ChannelRow, RoleRow, MemberRoleRow, InviteRow}
use sagiton.Permission.{view_channel, send_messages}
use sagiton.Validation.{validate_name, validate_max_uses, normalize_invite_expiry}

pub record GuildInviteJoinResult : Type 0 where
  pub guild : GuildSummary
  pub joined : Bool

-- WHERE guild_id = g AND user_id = u
abbrev pub is_member : ℕ → ℕ → MemberRow → Bool
is_member g u m = m.scope_id == g && m.user_id == u

abbrev pub member_exists : ℕ → ℕ → Db → Bool
member_exists g u db = exists_where (is_member g u) db.guild_members

abbrev pub has_user : ℕ → Db → Bool
has_user u db = exists_where (λ r. r.id == u) db.users

abbrev pub find_guild : ℕ → Db → Option GuildSummary
find_guild g db = find_where (λ r. r.id == g) db.guilds

-- `find_guild_for_member`: the join of `guilds` and `guild_members`.
unfoldable pub find_guild_for_member : ℕ → ℕ → Db → Option GuildSummary
find_guild_for_member g u db = if member_exists g u db then find_guild g db else none

-- INSERT INTO guild_members, under the primary key and the references to the guild and the user;
-- `on_duplicate` is what the caller makes of a unique violation.
abbrev insert_member : Tx Db Unit → ℕ → ℕ → Tx Db Unit
insert_member on_duplicate g u db =
    if member_exists g u db
    then on_duplicate db
    else if is_some (find_guild g db) && has_user u db
    then (
      ok tt,
      record db { guild_members = record { scope_id = g; user_id = u } ∷ db.guild_members },
    )
    else (err (internal (text "database error")), db)

-- INSERT INTO guild_members … ON CONFLICT DO NOTHING: whether a row was inserted.
abbrev insert_member_or_nothing : ℕ → ℕ → Tx Db Bool
insert_member_or_nothing g u db =
    if member_exists g u db
    then (ok false, db)
    else if is_some (find_guild g db) && has_user u db
    then (
      ok true,
      record db { guild_members = record { scope_id = g; user_id = u } ∷ db.guild_members },
    )
    else (err (internal (text "database error")), db)

abbrev raise_db : {A : Type 0} → Tx Db A
raise_db db = (err (internal (text "database error")), db)

-- `attach_default_role_to_member`, under its primary key.
unfoldable pub attach_default_role_to_member : (guild_id user_id role_id : ℕ) → Tx Db Unit
attach_default_role_to_member g u r db =
    if exists_where (λ m. m.guild_id == g && (m.user_id == u && m.role_id == r)) db.member_roles
    then raise_db db
    else (
      ok tt,
      record db {
        member_roles = record { guild_id = g; user_id = u; role_id = r } ∷ db.member_roles;
      },
    )

-- `default_role_id`; `fetch_one` raises where there is none.
unfoldable pub default_role_id : ℕ → Tx Db ℕ
default_role_id g db = elim (find_where (λ r. r.guild_id == g && r.is_default) db.roles) [
  | none ↦ raise_db db
  | some r ↦ (ok r.id, db)
]

-- `create_default_role`; `role_id` is its `Uuid::new_v4()`.
unfoldable pub create_default_role : (role_id guild_id : ℕ) → Tx Db ℕ
create_default_role role_id g db =
    if exists_where (λ r. r.id == role_id) db.roles then raise_db db else (
      ok role_id,
      record db {
        roles =
            record {
              id = role_id;
              guild_id = g;
              permissions = bit_or view_channel send_messages;
              is_default = true;
            }
            ∷ db.roles;
      },
    )

-- The INSERT of `create_guild`.
unfoldable pub insert_guild : Env → ℕ → Text → Tx Db GuildSummary
insert_guild env owner_id name db =
    let guild : GuildSummary = record {
      id = env.new_v4 0;
      name = name;
      owner_id = owner_id;
      created_at = env.db_now;
    } in
    if is_some (find_guild (env.new_v4 0) db)
    then raise_db db
    else if has_user owner_id db
    then (ok guild, record db { guilds = guild ∷ db.guilds })
    else raise_db db

-- `SqlxGuildChannelRepository::create_guild`.
unfoldable pub repo_create_guild : Env → ℕ → Text → Tx Db GuildSummary
repo_create_guild env owner_id name = transaction (do
  guild ← insert_guild env owner_id name
  insert_member raise_db guild.id owner_id
  role_id ← create_default_role (env.new_v4 1) guild.id
  attach_default_role_to_member guild.id owner_id role_id
  pure guild)

-- `SqlxGuildChannelRepository::add_member`.
unfoldable pub add_member : ℕ → ℕ → Tx Db Unit
add_member g u = transaction (do
  insert_member (λ db. (err (conflict (text "user is already a guild member")), db)) g u
  role_id ← default_role_id g
  attach_default_role_to_member g u role_id)

-- `SqlxGuildChannelRepository::remove_member`: two statements on the pool.
unfoldable pub remove_member : ℕ → ℕ → Tx Db Bool
remove_member g u = do
  removed ← gets (member_exists g u)
  modify (λ db. record db { guild_members = delete_where (is_member g u) db.guild_members })
  modify (λ db. record db {
    member_roles = delete_where (λ m. m.guild_id == g && m.user_id == u) db.member_roles;
  })
  pure removed

-- `SqlxGuildChannelRepository::is_guild_owner`.
unfoldable pub is_guild_owner : ℕ → ℕ → Db → Bool
is_guild_owner g u db = exists_where (λ r. r.id == g && r.owner_id == u) db.guilds

-- COALESCE(MAX(position), -1) + 1 over the channels of a guild.
unfoldable pub next_position : ℕ → List ChannelRow → ℕ
next_position g [] = 0
next_position g (c ∷ cs) =
    let rest = next_position g cs in if c.guild_id == g then max (c.position + 1) rest else rest

-- The INSERT of `create_channel`; its only unique violation that has a text of its own is the name's,
-- but a repeated id is reported by the same text.
unfoldable pub repo_create_channel : Env → ℕ → Text → Tx Db ChannelRow
unfolding next_position text_eq
repo_create_channel env g name db =
    let channel : ChannelRow = record {
      id = env.new_v4 0;
      guild_id = g;
      name = name;
      position = next_position g db.channels;
      created_at = env.db_now;
    } in
    if exists_where (λ c. c.id == env.new_v4 0) db.channels
    then (err (conflict (text "channel name already exists in this guild")), db)
    else if exists_where (λ c. c.guild_id == g && text_eq c.name name) db.channels
    then (err (conflict (text "channel name already exists in this guild")), db)
    else if is_some (find_guild g db)
    then (ok channel, record db { channels = channel ∷ db.channels })
    else raise_db db

-- `SqlxGuildChannelRepository::create_guild_invite`: the row is inserted for a member only.
unfoldable pub repo_create_guild_invite :
    Env → ℕ → ℕ → Text → (expires_at : ℕ) → Option ℕ → Tx Db InviteRow
unfolding text_eq
repo_create_guild_invite env g created_by token expires_at max_uses db =
    let invite : InviteRow = record {
      token = token;
      scope_id = g;
      created_by = created_by;
      expires_at = expires_at;
      max_uses = max_uses;
      used_count = 0;
      revoked_at = none;
      created_at = env.db_now;
    } in
    if not (member_exists g created_by db)
    then (err (not_found (text "guild not found")), db)
    else if exists_where (λ i. text_eq i.token token) db.guild_invites
    then raise_db db
    else (ok invite, record db { guild_invites = invite ∷ db.guild_invites })

-- `if let Some(max_uses) = max_uses && used >= max_uses`
abbrev pub is_used_up : Option ℕ → ℕ → Bool
is_used_up none used = false
is_used_up (some cap) used = leb cap used

-- UPDATE guild_invites SET uses_count = uses_count + 1, under `guild_invites_uses_cap_check`.
abbrev count_use : Text → Db → Db
count_use token db = record db {
  guild_invites =
      update_where (λ i. text_eq i.token token) (λ i. record i { used_count = i.used_count + 1 })
        db.guild_invites;
}

-- The part of `join_guild_via_invite` that runs for an invite that is in force.
unfoldable pub join_guild_found :
    Env → Text → ℕ → InviteRow → GuildSummary → Tx Db GuildInviteJoinResult
join_guild_found env token u invite guild = do
  already_member ← gets (member_exists invite.scope_id u)
  if already_member then pure (record { guild = guild; joined = false }) else do
    refuse_if (ltb invite.expires_at env.now_utc) (validation (text "invite token is expired"))
    refuse_if (is_used_up invite.max_uses invite.used_count)
        (validation (text "invite token usage limit exceeded"))
    inserted ← insert_member_or_nothing invite.scope_id u
    if not inserted then pure (record { guild = guild; joined = false }) else do
      role_id ← default_role_id invite.scope_id
      attach_default_role_to_member invite.scope_id u role_id
      modify (count_use token)
      pure (record { guild = guild; joined = true })

-- The row of the join of `guild_invites` and `guilds`.
abbrev find_invite : Text → Db → Option InviteRow
find_invite token db = find_where (λ i. text_eq i.token token) db.guild_invites

unfoldable pub join_guild_row : Env → Text → ℕ → Option InviteRow → Tx Db GuildInviteJoinResult
join_guild_row env token u none = λ db. (err (not_found (text "invite not found")), db)
join_guild_row env token u (some invite) = do
  guild ← gets (find_guild invite.scope_id)
  guild ← or_raise guild (not_found (text "invite not found"))
  refuse_if (is_some invite.revoked_at) (not_found (text "invite not found"))
  join_guild_found env token u invite guild

-- `SqlxGuildChannelRepository::join_guild_via_invite`.
unfoldable pub join_guild_via_invite : Env → Text → ℕ → Tx Db GuildInviteJoinResult
join_guild_via_invite env token u =
    transaction (do invite ← gets (find_invite token); join_guild_row env token u invite)

-- The use cases.
unfoldable pub create_guild : Env → ℕ → Text → Tx Db GuildSummary
create_guild env user_id name = do
  lift (validate_name "guild name" name 2 80)
  repo_create_guild env user_id (trim name)

unfoldable pub get_guild : ℕ → ℕ → Tx Db GuildSummary
get_guild guild_id user_id = do
  guild ← gets (find_guild_for_member guild_id user_id)
  or_raise guild (not_found (text "guild not found"))

unfoldable pub join_guild : (user_id guild_id : ℕ) → Tx Db Unit
join_guild user_id guild_id = do
  found ← gets (λ db. is_some (find_guild guild_id db))
  refuse_if (not found) (not_found (text "guild not found"))
  add_member guild_id user_id

unfoldable pub leave_guild : (user_id guild_id : ℕ) → Tx Db Unit
leave_guild user_id guild_id = do
  owner ← gets (is_guild_owner guild_id user_id)
  refuse_if owner (validation (text "guild owner cannot leave their own guild"))
  removed ← remove_member guild_id user_id
  refuse_if (not removed) (not_found (text "guild membership not found"))

unfoldable pub create_channel : Env → (user_id guild_id : ℕ) → Text → Tx Db ChannelRow
create_channel env user_id guild_id name = do
  lift (validate_name "channel name" name 1 80)
  get_guild guild_id user_id
  repo_create_channel env guild_id (trim name)

abbrev pub cap_of : Option ℤ → Option ℕ
cap_of none = none
cap_of (some value) = some (to_nat value)

-- `token` is the text of the UUID that is drawn for it.
unfoldable pub create_guild_invite :
    Env → Text → (actor guild_id : ℕ) → Option ℕ → Option ℤ → Tx Db InviteRow
create_guild_invite env token actor guild_id expires_in_seconds max_uses = do
  get_guild guild_id actor
  lift (validate_max_uses max_uses)
  repo_create_guild_invite env guild_id actor token
      (env.now_utc + normalize_invite_expiry expires_in_seconds) (cap_of max_uses)

unfoldable pub join_guild_invite : Env → ℕ → Text → Tx Db GuildInviteJoinResult
join_guild_invite env user_id token = do
  refuse_if (is_empty (trim token)) (validation (text "invite token is required"))
  join_guild_via_invite env (trim token) user_id

-- ===== src/Guild/Tests.antt =====
-- Guilds at concrete databases.
use sagiton.Prelude.{ℕ, ◌+◌, ◌≡◌, refl, none, some, [], ◌∷◌, arith, true, bit}
use sagiton.Schema.{Env, Db, UserRecord, InviteRow, GuildSummary, role, empty_db}
use sagiton.Prelude.Int.{pos}
use sagiton.Text.{Text, text_eq}
use sagiton.Prelude.Bits.{bit_not}
use sagiton.Guild.{
  join_guild_row, join_guild_found, default_role_id, attach_default_role_to_member, create_guild,
  create_guild_invite, join_guild_invite, join_guild_via_invite,
}
use sagiton.Guild.Permissions.{resolve_channel_permissions, adjust}
use sagiton.Guild.Permissions.Precedence.{decided, resolve_channel_permissions_precedence}
use sagiton.Guild.Invites.{
  JoinedVia, join_guild_via_invite_joined, join_guild_via_invite_not_joined,
}
use sagiton.Guild.Steps.{
  Reach, start, next, create_guild_step, create_guild_invite_step, join_guild_invite_step,
}
use sagiton.Invite.{IsCapped}
use sagiton.Guild.Caps.{Reach-IsCapped}
use sagiton.Guild.Membership.{IsOwned, Reach-IsOwned}

abbrev env : Env
env = record { db_now = 10; now_utc = 10; new_v4 = λ i. 100 + i }

abbrev user : ℕ → UserRecord
user id = record { id = id; username = id ∷ []; email = none; password_hash = [] }

abbrev two_users : Db
two_users = record empty_db { users = user 1 ∷ user 2 ∷ [] }

-- User 1 owns guild 100, which has one channel; user 2 is invited by the token `7`, once.
abbrev guild : GuildSummary
guild = record { id = 100; name = 65 ∷ 66 ∷ []; owner_id = 1; created_at = 10 }

abbrev invite : InviteRow
invite = record {
  token = 7 ∷ [];
  scope_id = 100;
  created_by = 1;
  expires_at = 90;
  max_uses = some 1;
  used_count = 0;
  revoked_at = none;
  created_at = 10;
}

abbrev one_guild : Db
one_guild = record two_users {
  guilds = guild ∷ [];
  guild_members = record { scope_id = 100; user_id = 1 } ∷ [];
  roles = record { id = 101; guild_id = 100; permissions = 3; is_default = true } ∷ [];
  member_roles = record { guild_id = 100; user_id = 1; role_id = 101 } ∷ [];
  channels =
      record { id = 200; guild_id = 100; name = 67 ∷ []; position = 0; created_at = 10 } ∷ [];
  channel_overrides =
      record { channel_id = 200; target_type = role; target_id = 101; allow = 0; deny = 2 } ∷ [];
  guild_invites = invite ∷ [];
}

-- The channel denies the role to send messages.
resolve_channel_permissions_precedence_example : bit 1 1 ≡ decided 100 1 200 one_guild 1
unfolding resolve_channel_permissions adjust bit_not
resolve_channel_permissions_precedence_example =
    resolve_channel_permissions_precedence 1 200 one_guild 100 1 1 refl refl (ground arith)

join_guild_via_invite_joined_example :
    JoinedVia env (7 ∷ []) 2 one_guild (join_guild_via_invite env (7 ∷ []) 2 one_guild).1
unfolding join_guild_via_invite join_guild_row text_eq join_guild_found default_role_id
    attach_default_role_to_member
join_guild_via_invite_joined_example =
    join_guild_via_invite_joined env (7 ∷ []) 2 one_guild (record { guild = guild; joined = true })
      refl refl

join_guild_via_invite_not_joined_example :
    (join_guild_via_invite env (7 ∷ []) 1 one_guild).1 ≡ one_guild
unfolding join_guild_via_invite join_guild_row text_eq join_guild_found default_role_id
    attach_default_role_to_member
join_guild_via_invite_not_joined_example =
    join_guild_via_invite_not_joined env (7 ∷ []) 1 one_guild refl

two_users-IsCapped : IsCapped two_users.guild_invites
two_users-IsCapped t i e = absurd (ground arith)

two_users-IsOwned : IsOwned two_users
two_users-IsOwned g other e = absurd (ground arith)

abbrev name : Text
name = 65 ∷ 66 ∷ []

abbrev founded : Db
founded = (create_guild env 1 name two_users).1

abbrev invited : Db
invited = (create_guild_invite env (7 ∷ []) 1 100 none (some (pos 1)) founded).1

abbrev joined : Db
joined = (join_guild_invite env 2 (7 ∷ []) invited).1

abbrev calls : Reach two_users joined
calls =
    next
      (next (next start (create_guild_step env 1 name two_users))
        (create_guild_invite_step env (7 ∷ []) 1 100 none (some (pos 1)) founded))
      (join_guild_invite_step env 2 (7 ∷ []) invited)

Reach-IsCapped_example : IsCapped joined.guild_invites
Reach-IsCapped_example = Reach-IsCapped {s = two_users} {t = joined} two_users-IsCapped calls

Reach-IsOwned_example : IsOwned joined
Reach-IsOwned_example = Reach-IsOwned {s = two_users} {t = joined} two_users-IsOwned calls

abbrev two_members : Db
two_members = record one_guild {
  guild_members =
      record { scope_id = 100; user_id = 2 } ∷ record { scope_id = 100; user_id = 1 } ∷ [];
  member_roles =
      record { guild_id = 100; user_id = 2; role_id = 101 }
      ∷ record { guild_id = 100; user_id = 1; role_id = 101 }
      ∷ [];
}

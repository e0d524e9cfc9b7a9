-- ===== src/Http/Guilds.antt =====
-- backend/src/interfaces/http/handlers/guild_channel.rs.
use sagiton.Prelude.{ℕ, Option, List}
use sagiton.Prelude.Int.{ℤ}
use sagiton.Text.{Text}
use sagiton.Schema.{Env, GuildSummary, ChannelRow, InviteRow}
use sagiton.Guild
use sagiton.Guild.{GuildInviteJoinResult}
use sagiton.Guild.Lists
use sagiton.Guild.Lists.{ChannelRecord}
use sagiton.Http.{AppState, Handler, Header, authenticated, respond}

module _ (state : AppState) (header : Header) where
  unfoldable pub create_guild : Env → (name : Text) → Handler GuildSummary
  create_guild env name =
      authenticated state header λ user_id. respond (Guild.create_guild env user_id name)

  unfoldable pub list_guilds : Handler (List GuildSummary)
  list_guilds = authenticated state header λ user_id. respond (Lists.list_guilds user_id)

  unfoldable pub get_guild : (guild_id : ℕ) → Handler GuildSummary
  get_guild guild_id =
      authenticated state header λ user_id. respond (Guild.get_guild guild_id user_id)

  unfoldable pub join_guild : (guild_id : ℕ) → Handler Unit
  join_guild guild_id =
      authenticated state header λ user_id. respond (Guild.join_guild user_id guild_id)

  unfoldable pub leave_guild : (guild_id : ℕ) → Handler Unit
  leave_guild guild_id =
      authenticated state header λ user_id. respond (Guild.leave_guild user_id guild_id)

  unfoldable pub create_channel : Env → (guild_id : ℕ) → (name : Text) → Handler ChannelRow
  create_channel env guild_id name =
      authenticated state header λ user_id. respond (Guild.create_channel env user_id guild_id name)

  unfoldable pub list_channels : (guild_id : ℕ) → Handler (List ChannelRecord)
  list_channels guild_id =
      authenticated state header λ user_id. respond (Lists.list_channels guild_id user_id)

  unfoldable pub get_channel : (channel_id : ℕ) → Handler ChannelRecord
  get_channel channel_id =
      authenticated state header λ user_id. respond (Lists.get_channel channel_id user_id)

  unfoldable pub create_guild_invite :
      Env → (token : Text) → (guild_id : ℕ) → Option ℕ → Option ℤ → Handler InviteRow
  create_guild_invite env token guild_id expires_in_seconds max_uses =
      authenticated state header λ actor.
        respond (Guild.create_guild_invite env token actor guild_id expires_in_seconds max_uses)

  unfoldable pub join_guild_invite : Env → (token : Text) → Handler GuildInviteJoinResult
  join_guild_invite env token =
      authenticated state header λ user_id. respond (Guild.join_guild_invite env user_id token)

-- ===== src/Guild/Lists.antt =====
-- The queries of guilds and channels that list rows or read a channel.
use sagiton.Prelude.{
  ℕ, Bool, ◌&&◌, ◌||◌, ◌==◌, Option, none, some, List, [], ◌∷◌, ltb, if◌then◌else◌,
}
use sagiton.Shared.{text, not_found}
use sagiton.Database.{Tx, gets, or_raise, ◌>>=◌, ◌>>◌}
use sagiton.Database.Table.{find_where, select_where}
use sagiton.Schema.{Db, GuildSummary, ChannelRow}
use sagiton.Message.{has_unread_among}
use sagiton.Guild.{member_exists, get_guild}

-- A channel with the column that the queries compute for a user.
pub record ChannelRecord : Type 0 where
  pub channel : ChannelRow
  pub has_unread : Bool

-- ORDER BY g.created_at ASC; rows of one time stay in the order of the table.
abbrev put_guild : GuildSummary → List GuildSummary → List GuildSummary
put_guild g [] = g ∷ []
put_guild g (x ∷ xs) =
    let rest = put_guild g xs in if ltb x.created_at g.created_at then x ∷ rest else g ∷ x ∷ xs

abbrev oldest_first : List GuildSummary → List GuildSummary
oldest_first [] = []
oldest_first (g ∷ rows) = put_guild g (oldest_first rows)

-- (position, created_at) of the first is less than that of the second.
abbrev is_before : ChannelRow → ChannelRow → Bool
is_before x c =
    ltb x.position c.position || x.position == c.position && ltb x.created_at c.created_at

-- ORDER BY c.position ASC, c.created_at ASC
abbrev put_channel : ChannelRow → List ChannelRow → List ChannelRow
put_channel c [] = c ∷ []
put_channel c (x ∷ xs) =
    let rest = put_channel c xs in if is_before x c then x ∷ rest else c ∷ x ∷ xs

abbrev by_position : List ChannelRow → List ChannelRow
by_position [] = []
by_position (c ∷ rows) = put_channel c (by_position rows)

abbrev channel_record : ℕ → Db → ChannelRow → ChannelRecord
channel_record u db c = record {
  channel = c;
  has_unread = has_unread_among c.id u db.channel_reads db.messages;
}

abbrev channel_records : ℕ → Db → List ChannelRow → List ChannelRecord
channel_records u db [] = []
channel_records u db (c ∷ rows) = channel_record u db c ∷ channel_records u db rows

abbrev found_record : ℕ → Db → Option ChannelRow → Option ChannelRecord
found_record u db none = none
found_record u db (some c) = some (channel_record u db c)

-- `list_guilds_for_user`.
unfoldable pub list_guilds_for_user : ℕ → Db → List GuildSummary
list_guilds_for_user u db = oldest_first (select_where (λ g. member_exists g.id u db) db.guilds)

-- `list_channels_for_member`.
unfoldable pub list_channels_for_member : (guild_id user_id : ℕ) → Db → List ChannelRecord
list_channels_for_member g u db =
    channel_records u db (
      by_position
        (select_where (λ c. c.guild_id == g && member_exists c.guild_id u db) db.channels))

-- `find_channel_for_member`.
unfoldable pub find_channel_for_member : (channel_id user_id : ℕ) → Db → Option ChannelRecord
find_channel_for_member channel_id u db =
    found_record u db
      (find_where (λ c. c.id == channel_id && member_exists c.guild_id u db) db.channels)

-- The use cases.
unfoldable pub list_guilds : ℕ → Tx Db (List GuildSummary)
list_guilds u = gets (list_guilds_for_user u)

unfoldable pub list_channels : (guild_id user_id : ℕ) → Tx Db (List ChannelRecord)
list_channels g u = do get_guild g u; gets (list_channels_for_member g u)

unfoldable pub get_channel : (channel_id user_id : ℕ) → Tx Db ChannelRecord
get_channel channel_id u = do
  found ← gets (find_channel_for_member channel_id u)
  or_raise found (not_found (text "channel not found"))

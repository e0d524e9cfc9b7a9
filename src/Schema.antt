-- ===== src/Schema.antt =====
-- The rows of the database, with the records of backend/src/domain that mirror them, and the state
-- that every repository shares. Columns that no statement of the program reads back are left out
-- (`nickname`, `joined_at`, `updated_at` of users). Ids are UUIDs, compared and ordered as numbers;
-- a time is a number. Texts that a CHECK constraint limits to a few words are enumerations.
use sagiton.Prelude.{ℕ, Option, List, [], Bool}
use sagiton.Text.{Text}

-- What a call draws from its surroundings: `NOW()` of its transaction, `OffsetDateTime::now_utc()`,
-- and the values of its calls of `Uuid::new_v4()`, in their order.
pub record Env : Type 0 where
  pub db_now : ℕ
  pub now_utc : ℕ
  pub new_v4 : ℕ → ℕ

pub record UserRecord : Type 0 where
  pub id : ℕ
  pub username : Text
  pub email : Option Text
  pub password_hash : Text

pub record SessionRow : Type 0 where
  pub id : ℕ
  pub user_id : ℕ
  pub refresh_token_hash : Text
  pub expires_at : ℕ
  pub revoked_at : Option ℕ
  pub user_agent : Option Text
  pub ip : Option Text

pub data RequestStatus : Type 0 where
  pending accepted rejected : RequestStatus

pub record FriendRequestRecord : Type 0 where
  pub from_user_id : ℕ
  pub to_user_id : ℕ
  pub status : RequestStatus
  pub created_at : ℕ
  pub responded_at : Option ℕ

pub record FriendRow : Type 0 where
  pub user_id_a : ℕ
  pub user_id_b : ℕ
  pub created_at : ℕ

pub data DirectStatus : Type 0 where
  pending active : DirectStatus

-- `threads_direct_pair_check`: a direct thread has two users, a group a name and an owner.
pub data ThreadKind : Type 0 where
  direct : (direct_a_user_id direct_b_user_id : ℕ) → ThreadKind
  group : (name : Text) (owner_id : ℕ) → ThreadKind

pub record ThreadRow : Type 0 where
  pub id : ℕ
  pub kind : ThreadKind
  pub direct_status : DirectStatus
  pub requested_by : Option ℕ
  pub accepted_at : Option ℕ
  pub created_at : ℕ

-- A row of `thread_members` or of `guild_members`.
pub record MemberRow : Type 0 where
  pub scope_id : ℕ
  pub user_id : ℕ

-- A row of `messages` or of `thread_messages`; `scope_id` is its channel or its thread.
pub record MessageRecord : Type 0 where
  pub id : ℕ
  pub scope_id : ℕ
  pub author_id : ℕ
  pub content : Text
  pub created_at : ℕ
  pub edited_at : Option ℕ
  pub deleted_at : Option ℕ

-- A row of `channel_reads` or of `thread_reads`.
pub record ReadRow : Type 0 where
  pub user_id : ℕ
  pub scope_id : ℕ
  pub last_read_message_id : Option ℕ
  pub updated_at : ℕ

-- A row of `group_invites` or of `guild_invites`.
pub record InviteRow : Type 0 where
  pub token : Text
  pub scope_id : ℕ
  pub created_by : ℕ
  pub expires_at : ℕ
  pub max_uses : Option ℕ
  pub used_count : ℕ
  pub revoked_at : Option ℕ
  pub created_at : ℕ

pub record GuildSummary : Type 0 where
  pub id : ℕ
  pub name : Text
  pub owner_id : ℕ
  pub created_at : ℕ

pub record ChannelRow : Type 0 where
  pub id : ℕ
  pub guild_id : ℕ
  pub name : Text
  pub position : ℕ
  pub created_at : ℕ

pub record RoleRow : Type 0 where
  pub id : ℕ
  pub guild_id : ℕ
  pub permissions : ℕ
  pub is_default : Bool

pub record MemberRoleRow : Type 0 where
  pub guild_id : ℕ
  pub user_id : ℕ
  pub role_id : ℕ

pub data TargetType : Type 0 where
  role member : TargetType

pub record OverrideRow : Type 0 where
  pub channel_id : ℕ
  pub target_type : TargetType
  pub target_id : ℕ
  pub allow : ℕ
  pub deny : ℕ

pub record Db : Type 0 where
  pub users : List UserRecord
  pub user_sessions : List SessionRow
  pub friend_requests : List FriendRequestRecord
  pub friends : List FriendRow
  pub threads : List ThreadRow
  pub thread_members : List MemberRow
  pub thread_messages : List MessageRecord
  pub thread_reads : List ReadRow
  pub group_invites : List InviteRow
  pub guilds : List GuildSummary
  pub guild_members : List MemberRow
  pub channels : List ChannelRow
  pub roles : List RoleRow
  pub member_roles : List MemberRoleRow
  pub channel_overrides : List OverrideRow
  pub messages : List MessageRecord
  pub channel_reads : List ReadRow
  pub guild_invites : List InviteRow

abbrev pub empty_db : Db
empty_db = record {
  users = [];
  user_sessions = [];
  friend_requests = [];
  friends = [];
  threads = [];
  thread_members = [];
  thread_messages = [];
  thread_reads = [];
  group_invites = [];
  guilds = [];
  guild_members = [];
  channels = [];
  roles = [];
  member_roles = [];
  channel_overrides = [];
  messages = [];
  channel_reads = [];
  guild_invites = [];
}

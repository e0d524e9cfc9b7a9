-- ===== src/Http/Calls.antt =====
-- The requests to the handlers that authenticate their caller, and the handler of each.
use sagiton.Prelude.{ℕ, Bool, true, false, Option, List}
use sagiton.Prelude.Int.{ℤ}
use sagiton.Text.{Text}
use sagiton.Shared.{AppResult, is_ok}
use sagiton.Schema.{Env, Db}
use sagiton.Http.{Publication, Header, AppState}
use sagiton.Http.Messages
use sagiton.Http.Conversations
use sagiton.Http.Guilds
use sagiton.Http.Accounts

-- A request to a handler that authenticates its caller, with what it draws.
pub data Call : Type 0 where
  create_message update_message create_thread_message update_thread_message :
      (env : Env) (id : ℕ) (content : Text) → Call
  delete_message delete_thread_message create_direct_thread accept_direct_thread
        create_friend_request accept_friend_request reject_friend_request :
      (env : Env) (id : ℕ) → Call
  list_messages list_thread_messages : (id : ℕ) (before : Option ℕ) (limit : Option ℤ) → Call
  mark_channel_read mark_thread_read : (env : Env) (id : ℕ) (last : Option ℕ) → Call
  list_direct_threads list_friend_requests : (inbox : Option Text) → Call
  get_direct_thread reject_direct_thread get_group_thread leave_group_thread get_guild join_guild
        leave_guild list_channels get_channel :
      (id : ℕ) → Call
  create_group_thread : (env : Env) (name : Text) (members : List ℕ) → Call
  add_group_member : (thread_id user_id : ℕ) → Call
  create_group_invite create_guild_invite :
      (env : Env) (token : Text) (id : ℕ) (expires : Option ℕ) (max_uses : Option ℤ) → Call
  join_group_invite create_guild join_guild_invite : (env : Env) (token : Text) → Call
  create_channel : (env : Env) (guild_id : ℕ) (name : Text) → Call
  list_group_threads list_guilds list_friends me : Call

-- Whether the call succeeded, the database it left, and what it published.
abbrev pub Outcome : Type 0
Outcome = Bool × Db × List Publication

abbrev pub seen : {A : Type 0} → AppResult A × Db × List Publication → Outcome
seen r = (is_ok r.0, r.1, r.2)

module _ (state : AppState) (header : Header) where
  -- The handler of each call.
  unfoldable pub serve : Call → Db → Outcome
  unfolding Messages.create_message Messages.update_message Messages.delete_message
      Messages.list_messages Messages.mark_channel_read Conversations.create_direct_thread
      Conversations.list_direct_threads Conversations.get_direct_thread
      Conversations.accept_direct_thread Conversations.reject_direct_thread
      Conversations.create_group_thread Conversations.list_group_threads
      Conversations.get_group_thread Conversations.add_group_member Conversations.leave_group_thread
      Conversations.create_group_invite Conversations.join_group_invite
      Conversations.mark_thread_read Conversations.create_thread_message
      Conversations.list_thread_messages Conversations.update_thread_message
      Conversations.delete_thread_message Guilds.create_guild Guilds.list_guilds Guilds.get_guild
      Guilds.join_guild Guilds.leave_guild Guilds.create_channel Guilds.list_channels
      Guilds.get_channel Guilds.create_guild_invite Guilds.join_guild_invite
      Accounts.create_friend_request Accounts.accept_friend_request Accounts.reject_friend_request
      Accounts.list_friends Accounts.list_friend_requests Accounts.me
  serve (create_message env id content) db =
      seen (Messages.create_message state header env id content db)
  serve (update_message env id content) db =
      seen (Messages.update_message state header env id content db)
  serve (delete_message env id) db = seen (Messages.delete_message state header env id db)
  serve (list_messages id before limit) db =
      seen (Messages.list_messages state header id before limit db)
  serve (mark_channel_read env id last) db =
      seen (Messages.mark_channel_read state header env id last db)
  serve (create_direct_thread env id) db =
      seen (Conversations.create_direct_thread state header env id db)
  serve (list_direct_threads inbox) db =
      seen (Conversations.list_direct_threads state header inbox db)
  serve (get_direct_thread id) db = seen (Conversations.get_direct_thread state header id db)
  serve (accept_direct_thread env id) db =
      seen (Conversations.accept_direct_thread state header env id db)
  serve (reject_direct_thread id) db = seen (Conversations.reject_direct_thread state header id db)
  serve (create_group_thread env name members) db =
      seen (Conversations.create_group_thread state header env name members db)
  serve (list_group_threads) db = seen (Conversations.list_group_threads state header db)
  serve (get_group_thread id) db = seen (Conversations.get_group_thread state header id db)
  serve (add_group_member thread_id user_id) db =
      seen (Conversations.add_group_member state header thread_id user_id db)
  serve (leave_group_thread id) db = seen (Conversations.leave_group_thread state header id db)
  serve (create_group_invite env token id expires max_uses) db =
      seen (Conversations.create_group_invite state header env token id expires max_uses db)
  serve (join_group_invite env token) db =
      seen (Conversations.join_group_invite state header env token db)
  serve (mark_thread_read env id last) db =
      seen (Conversations.mark_thread_read state header env id last db)
  serve (create_thread_message env id content) db =
      seen (Conversations.create_thread_message state header env id content db)
  serve (list_thread_messages id before limit) db =
      seen (Conversations.list_thread_messages state header id before limit db)
  serve (update_thread_message env id content) db =
      seen (Conversations.update_thread_message state header env id content db)
  serve (delete_thread_message env id) db =
      seen (Conversations.delete_thread_message state header env id db)
  serve (create_guild env token) db = seen (Guilds.create_guild state header env token db)
  serve (list_guilds) db = seen (Guilds.list_guilds state header db)
  serve (get_guild id) db = seen (Guilds.get_guild state header id db)
  serve (join_guild id) db = seen (Guilds.join_guild state header id db)
  serve (leave_guild id) db = seen (Guilds.leave_guild state header id db)
  serve (create_channel env guild_id name) db =
      seen (Guilds.create_channel state header env guild_id name db)
  serve (list_channels id) db = seen (Guilds.list_channels state header id db)
  serve (get_channel id) db = seen (Guilds.get_channel state header id db)
  serve (create_guild_invite env token id expires max_uses) db =
      seen (Guilds.create_guild_invite state header env token id expires max_uses db)
  serve (join_guild_invite env token) db = seen (Guilds.join_guild_invite state header env token db)
  serve (create_friend_request env id) db =
      seen (Accounts.create_friend_request state header env id db)
  serve (accept_friend_request env id) db =
      seen (Accounts.accept_friend_request state header env id db)
  serve (reject_friend_request env id) db =
      seen (Accounts.reject_friend_request state header env id db)
  serve (list_friends) db = seen (Accounts.list_friends state header db)
  serve (list_friend_requests inbox) db = seen (Accounts.list_friend_requests state header inbox db)
  serve (me) db = seen (Accounts.me state header db)

abbrev pub is_accept : Call → Bool
is_accept (accept_direct_thread _ _) = true
is_accept _ = false

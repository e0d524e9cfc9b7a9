-- ===== src/Friendship/Lists.antt =====
-- The queries that list friends and pending friend requests.
use sagiton.Prelude.{ℕ, ◌&&◌, ◌||◌, ◌==◌, Option, none, some, List, [], ◌∷◌, ltb, if◌then◌else◌}
use sagiton.Text.{Text}
use sagiton.Database.{Tx, gets}
use sagiton.Database.Table.{find_where, select_where}
use sagiton.Schema.{Db, UserRecord, FriendRequestRecord, FriendRow}
use sagiton.Friendship.{FriendSummary, is_pending}

pub record FriendRequestSummary : Type 0 where
  pub request : FriendRequestRecord
  pub from_username : Text
  pub to_username : Text

pub data FriendRequestInboxFilter : Type 0 where
  pending outbox : FriendRequestInboxFilter

-- ORDER BY fr.created_at DESC; rows of one time stay in the order of the table.
abbrev put_request : FriendRequestRecord → List FriendRequestRecord → List FriendRequestRecord
put_request r [] = r ∷ []
put_request r (x ∷ xs) =
    let rest = put_request r xs in if ltb r.created_at x.created_at then x ∷ rest else r ∷ x ∷ xs

abbrev latest_requests : List FriendRequestRecord → List FriendRequestRecord
latest_requests [] = []
latest_requests (r ∷ rows) = put_request r (latest_requests rows)

-- ORDER BY f.created_at DESC
abbrev put_friend : FriendRow → List FriendRow → List FriendRow
put_friend f [] = f ∷ []
put_friend f (x ∷ xs) =
    let rest = put_friend f xs in if ltb f.created_at x.created_at then x ∷ rest else f ∷ x ∷ xs

abbrev latest_friends : List FriendRow → List FriendRow
latest_friends [] = []
latest_friends (f ∷ rows) = put_friend f (latest_friends rows)

abbrev find_user : ℕ → Db → Option UserRecord
find_user u db = find_where (λ r. r.id == u) db.users

-- The joins with the two users drop a request of which one is not found.
abbrev with_names :
    FriendRequestRecord → Option UserRecord → Option UserRecord → Option FriendRequestSummary
with_names r none to_user = none
with_names r (some from_user) none = none
with_names r (some from_user) (some to_user) =
    some
      (record { request = r; from_username = from_user.username; to_username = to_user.username })

abbrev request_summaries : Db → List FriendRequestRecord → List FriendRequestSummary
request_summaries db [] = []
request_summaries db (r ∷ rows) =
    let rest = request_summaries db rows in
    elim (with_names r (find_user r.from_user_id db) (find_user r.to_user_id db)) [
      | none ↦ rest
      | some s ↦ s ∷ rest
    ]

-- CASE WHEN f.user_id_a = user THEN f.user_id_b ELSE f.user_id_a END
abbrev pub friend_of : ℕ → FriendRow → ℕ
friend_of u f = if f.user_id_a == u then f.user_id_b else f.user_id_a

abbrev friend_summaries : ℕ → Db → List FriendRow → List FriendSummary
friend_summaries u db [] = []
friend_summaries u db (f ∷ rows) =
    let rest = friend_summaries u db rows in
    elim (find_user (friend_of u f) db) [
      | none ↦ rest
      | some user ↦
          record { user_id = friend_of u f; username = user.username; created_at = f.created_at }
          ∷ rest
    ]

-- `list_pending_inbox_requests`.
unfoldable pub list_pending_inbox_requests : ℕ → Db → List FriendRequestSummary
list_pending_inbox_requests u db = request_summaries db (
    latest_requests
      (select_where (λ r. r.to_user_id == u && is_pending r.status) db.friend_requests))

-- `list_pending_outbox_requests`.
unfoldable pub list_pending_outbox_requests : ℕ → Db → List FriendRequestSummary
list_pending_outbox_requests u db = request_summaries db (
    latest_requests
      (select_where (λ r. r.from_user_id == u && is_pending r.status) db.friend_requests))

-- `SqlxFriendshipRepository::list_friends`.
unfoldable pub repo_list_friends : ℕ → Db → List FriendSummary
repo_list_friends u db =
    friend_summaries u db
      (latest_friends (select_where (λ f. f.user_id_a == u || f.user_id_b == u) db.friends))

-- The use cases.
unfoldable pub list_friend_requests :
    ℕ → FriendRequestInboxFilter → Tx Db (List FriendRequestSummary)
list_friend_requests u pending = gets (list_pending_inbox_requests u)
list_friend_requests u outbox = gets (list_pending_outbox_requests u)

unfoldable pub list_friends : ℕ → Tx Db (List FriendSummary)
list_friends u = gets (repo_list_friends u)

-- ===== src/Friendship.antt =====
-- backend/src/application/use_cases/friendship.rs over
-- backend/src/infrastructure/db/repositories/friendship_repository.rs.
mod Views
mod Steps
pub mod Accept
pub mod Invariant
pub mod Lists
mod Tests
use sagiton.Prelude.{
  ℕ, Bool, true, false, not, ◌&&◌, Option, none, some, ◌∷◌, ltb, ◌==◌, if◌then◌else◌,
}
use sagiton.Text.{Text}
use sagiton.Shared.{ok, err, text, validation, conflict, not_found, internal}
use sagiton.Database.{Tx, pure, gets, or_raise, transaction, ◌>>=◌, ◌>>◌, refuse_if, modify}
use sagiton.Database.Table.{find_where, exists_where, update_where}
use sagiton.Schema.{
  Env, Db, RequestStatus, FriendRequestRecord, FriendRow, DirectStatus, ThreadKind, direct, group,
  ThreadRow,
}

pub record FriendSummary : Type 0 where
  pub user_id : ℕ
  pub username : Text
  pub created_at : ℕ

unfoldable pub sort_pair : ℕ → ℕ → ℕ × ℕ
sort_pair a b = if ltb a b then (a, b) else (b, a)

abbrev pub is_pending : RequestStatus → Bool
is_pending RequestStatus.pending = true
is_pending RequestStatus.accepted = false
is_pending RequestStatus.rejected = false

abbrev pub is_rejected : RequestStatus → Bool
is_rejected RequestStatus.pending = false
is_rejected RequestStatus.accepted = false
is_rejected RequestStatus.rejected = true

abbrev pub user_exists : ℕ → Db → Bool
user_exists u db = exists_where (λ r. r.id == u) db.users

-- WHERE from_user_id = from AND to_user_id = to
abbrev pub is_request : ℕ → ℕ → FriendRequestRecord → Bool
is_request from to r = r.from_user_id == from && r.to_user_id == to

-- WHERE user_id_a = p.0 AND user_id_b = p.1
abbrev pub is_friend_row : ℕ × ℕ → FriendRow → Bool
is_friend_row p r = r.user_id_a == p.0 && r.user_id_b == p.1

abbrev pub are_friends : ℕ → ℕ → Db → Bool
are_friends a b db = exists_where (is_friend_row (sort_pair a b)) db.friends

-- INSERT INTO friend_requests … ON CONFLICT DO UPDATE … WHERE status <> 'PENDING' RETURNING …
upsert_request : Env → ℕ → ℕ → Tx Db (Option FriendRequestRecord)
upsert_request env from to db =
    let fresh : FriendRequestRecord = record {
      from_user_id = from;
      to_user_id = to;
      status = RequestStatus.pending;
      created_at = env.db_now;
      responded_at = none;
    } in
    if from == to
    then (err (internal (text "database error")), db)
    else elim (find_where (is_request from to) db.friend_requests) [
      | some old ↦ if is_pending old.status then (ok none, db) else (
        ok (some fresh),
        record db {
          friend_requests = update_where (is_request from to) (λ _. fresh) db.friend_requests;
        },
      )
      | none ↦
          if user_exists from db && user_exists to db
          then (ok (some fresh), record db { friend_requests = fresh ∷ db.friend_requests })
          else (err (not_found (text "referenced user not found")), db)
    ]

-- `SqlxFriendshipRepository::create_friend_request`: three statements on the pool.
pub repo_create_friend_request : Env → ℕ → ℕ → Tx Db FriendRequestRecord
unfolding upsert_request sort_pair
repo_create_friend_request env from to = do
  already_friends ← gets (are_friends from to)
  refuse_if already_friends (conflict (text "users are already friends"))
  incoming ←
      gets
        (λ db. exists_where (λ r. is_request to from r && is_pending r.status) db.friend_requests)
  refuse_if incoming (conflict (text "incoming friend request already exists from this user"))
  request ← upsert_request env from to
  or_raise request (conflict (text "friend request is already pending"))

-- `friend_summary_for_user`; `fetch_one` raises where no row is found.
unfoldable pub friend_summary_for_user : ℕ → ℕ → Tx Db FriendSummary
unfolding sort_pair
friend_summary_for_user user friend db =
    elim (find_where (is_friend_row (sort_pair user friend)) db.friends) [
      | none ↦ (err (internal (text "database error")), db)
      | some f ↦ elim (find_where (λ u. u.id == friend) db.users) [
        | none ↦ (err (internal (text "database error")), db)
        | some u ↦
            (ok (record { user_id = u.id; username = u.username; created_at = f.created_at }), db)
      ]
    ]

abbrev accept_status : Env → ℕ → ℕ → Db → Db
accept_status env from to db = record db {
  friend_requests =
      update_where (is_request from to)
        (λ r. record r { status = RequestStatus.accepted; responded_at = some env.db_now })
        db.friend_requests;
}

-- INSERT INTO friends … ON CONFLICT DO NOTHING, under `friends_pair_order_check`.
unfoldable pub insert_friends : Env → ℕ × ℕ → Tx Db Unit
insert_friends env p db =
    if ltb p.0 p.1
    then if exists_where (is_friend_row p) db.friends then (ok tt, db) else (
      ok tt,
      record db {
        friends = record { user_id_a = p.0; user_id_b = p.1; created_at = env.db_now } ∷ db.friends;
      },
    )
    else (err (internal (text "database error")), db)

-- WHERE kind = 'DIRECT' AND direct_a_user_id = p.0 AND direct_b_user_id = p.1
abbrev pub is_direct_pair : ℕ × ℕ → ThreadKind → Bool
is_direct_pair p (direct a b) = a == p.0 && b == p.1
is_direct_pair p (group _ _) = false

abbrev pub is_pending_direct : DirectStatus → Bool
is_pending_direct DirectStatus.pending = true
is_pending_direct DirectStatus.active = false

-- COALESCE(accepted_at, NOW())
abbrev coalesce : Option ℕ → ℕ → Option ℕ
coalesce none now = some now
coalesce (some t) now = some t

abbrev pub is_opened_by : ℕ × ℕ → ThreadRow → Bool
is_opened_by p t = is_direct_pair p t.kind && is_pending_direct t.direct_status

abbrev pub opened_thread : (now : ℕ) → ThreadRow → ThreadRow
opened_thread now t = record t {
  direct_status = DirectStatus.active;
  accepted_at = coalesce t.accepted_at now;
}

abbrev pub activate_threads : Env → ℕ × ℕ → Db → Db
activate_threads env p db = record db {
  threads = update_where (is_opened_by p) (opened_thread env.db_now) db.threads;
}

-- The part of `accept_friend_request` after the status was read.
accept_found : Env → ℕ → ℕ → Option FriendRequestRecord → Tx Db (Option FriendSummary)
accept_found env from to none = pure none
accept_found env from to (some request) = do
  refuse_if (is_rejected request.status) (validation (text "friend request is already rejected"))
  modify (λ db. if is_pending request.status then accept_status env from to db else db)
  insert_friends env (sort_pair from to)
  modify (activate_threads env (sort_pair from to))
  friend ← friend_summary_for_user to from
  pure (some friend)

-- `SqlxFriendshipRepository::accept_friend_request`: one transaction.
pub repo_accept_friend_request : Env → ℕ → ℕ → Tx Db (Option FriendSummary)
unfolding accept_found
repo_accept_friend_request env from to = transaction (do
  request ← gets (λ db. find_where (is_request from to) db.friend_requests)
  accept_found env from to request)

-- `SqlxFriendshipRepository::reject_friend_request`; the result is `rows_affected() > 0`.
pub repo_reject_friend_request : Env → ℕ → ℕ → Tx Db Bool
repo_reject_friend_request env from to db =
    let test = λ (r : FriendRequestRecord). is_request from to r && is_pending r.status in
    (
      ok (exists_where test db.friend_requests),
      record db {
        friend_requests =
            update_where test
              (λ r. record r { status = RequestStatus.rejected; responded_at = some env.db_now })
              db.friend_requests;
      },
    )

-- `FriendshipUseCase::create_friend_request`.
unfoldable pub create_friend_request : Env → ℕ → ℕ → Tx Db FriendRequestRecord
unfolding repo_create_friend_request
create_friend_request env from to = do
  refuse_if (from == to) (validation (text "cannot send friend request to yourself"))
  repo_create_friend_request env from to

-- `FriendshipUseCase::accept_friend_request`, called by the receiver `user`.
unfoldable pub accept_friend_request : Env → (user from : ℕ) → Tx Db FriendSummary
unfolding repo_accept_friend_request
accept_friend_request env user from = do
  friend ← repo_accept_friend_request env from user
  or_raise friend (not_found (text "friend request not found"))

-- `FriendshipUseCase::reject_friend_request`, called by the receiver `user`.
unfoldable pub reject_friend_request : Env → (user from : ℕ) → Tx Db Unit
unfolding repo_reject_friend_request
reject_friend_request env user from = do
  rejected ← repo_reject_friend_request env from user
  refuse_if (not rejected) (not_found (text "friend request not found"))

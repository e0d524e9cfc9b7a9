-- ===== src/Friendship/Accept.antt =====
-- What accepting a friend request does to the status of every request and to every friendship.
use sagiton.Prelude.{
  ==_refl, ℕ, ◌≡◌, ◌≢◌, refl, true, false, ◌&&◌, some, arith, ◌==◌, if◌then◌else◌, inl, inr, ◌⊎◌,
  Option-cases,
}
use mathlib.Core.Bool.{false≢true}
use sagiton.Shared.{is_ok, AppResult, ok}
use sagiton.Database.Table.{find_where, exists_where, All}
use sagiton.Schema.{Env, Db, FriendRequestRecord, pending, accepted}
use sagiton.Friendship.{
  FriendSummary, is_request, is_pending, is_friend_row, are_friends, sort_pair,
  accept_friend_request, accept_status, insert_friends, friend_summary_for_user, activate_threads,
  is_rejected,
}
use sagiton.Friendship.Views.{
  request_status, status_in-update_where, UniqueRequests, UniqueRequests-update_where, IsOrdered,
  UniqueFriends,
}

module _ (env : Env) (user from : ℕ) (db : Db) where
  friend_summary_reads : (u v : ℕ) (s : Db) → (friend_summary_for_user u v s).1 ≡ s
  unfolding friend_summary_for_user
  friend_summary_reads u v s = ground arith

  -- The friends after the INSERT, where it succeeds.
  abbrev pub with_friends : Db → Db
  with_friends s = (insert_friends env (sort_pair from user) s).1

  abbrev pub marked : FriendRequestRecord → Db
  marked r = if is_pending r.status then accept_status env from user db else db

  abbrev pub after : FriendRequestRecord → Db
  after r = activate_threads env (sort_pair from user) (with_friends (marked r))

  abbrev pub Accepted : AppResult FriendSummary × Db → Type 0
  Accepted o =
      (r : FriendRequestRecord) × (find_where (is_request from user) db.friend_requests ≡ some r)
      × (is_rejected r.status ≡ false)
      × ((insert_friends env (sort_pair from user) (marked r)).0 ≡ ok tt)
      × (o.1 ≡ after r)

  pub accept_outcome :
      is_ok (accept_friend_request env user from db).0 ≡ true
      → Accepted (accept_friend_request env user from db)
  unfolding accept_friend_request
  accept_outcome h = elim (Option-cases (find_where (is_request from user) db.friend_requests)) [
    | inl absent ↦ absurd (false≢true (rw absent at h))
    | inr (r, found) ↦ (
      r,
      found,
      ground arith,
      ground arith,
      ground (arith, friend_summary_reads user from (after r)),
    )
  ]

  -- An acceptance that fails leaves the database as it was.
  pub accept_error :
      is_ok (accept_friend_request env user from db).0 ≡ false
      → (accept_friend_request env user from db).1 ≡ db
  unfolding accept_friend_request
  accept_error h = ground arith

  insert_friends_views :
      (p q : ℕ × ℕ) (s : Db)
      → (insert_friends env p s).0 ≡ ok tt
      → exists_where (is_friend_row q) (insert_friends env p s).1.friends
        ≡ (if q.0 == p.0 && q.1 == p.1 then true else exists_where (is_friend_row q) s.friends)
  unfolding insert_friends
  insert_friends_views p q s h = ground arith

  insert_friends_requests :
      (p : ℕ × ℕ) (s : Db) → (insert_friends env p s).1.friend_requests ≡ s.friend_requests
  unfolding insert_friends
  insert_friends_requests p s = ground arith

  pub accept_views :
      (x y : ℕ) (o : AppResult FriendSummary × Db)
      → Accepted o
      → request_status x y o.1
        ≡ (if x == from && y == user then some accepted else request_status x y db)
  accept_views x y o (r, found, alive, inserted, e) = rw e (
      rw (insert_friends_requests (sort_pair from user) (marked r)) (
        ground (
          arith,
          status_in-update_where from user x y
              (λ r. record r { status = accepted; responded_at = some env.db_now }) accepted
              (λ r h. ground arith) db.friend_requests,
        )))

  pub accept_friend_rows :
      (q : ℕ × ℕ) (o : AppResult FriendSummary × Db)
      → Accepted o
      → exists_where (is_friend_row q) o.1.friends ≡ (
          if q.0 == (sort_pair from user).0 && q.1 == (sort_pair from user).1
          then true
          else exists_where (is_friend_row q) db.friends)
  accept_friend_rows q o (r, found, alive, inserted, e) =
      rw e (ground (arith, insert_friends_views (sort_pair from user) q (marked r) inserted))

  pub accept_friends :
      (x y : ℕ) (o : AppResult FriendSummary × Db)
      → Accepted o
      → are_friends x y o.1 ≡ (
          if (sort_pair x y).0 == (sort_pair from user).0
            && (sort_pair x y).1 == (sort_pair from user).1
          then true
          else are_friends x y db)
  accept_friends x y o a = accept_friend_rows (sort_pair x y) o a

  pub accept_unique :
      (o : AppResult FriendSummary × Db)
      → Accepted o
      → UniqueRequests db.friend_requests
      → UniqueRequests o.1.friend_requests
  accept_unique o (r, found, alive, inserted, e) u = rw e (
      rw (insert_friends_requests (sort_pair from user) (marked r)) (
        ground (
          arith,
          UniqueRequests-update_where (is_request from user)
              (λ r. record r { status = accepted; responded_at = some env.db_now })
              (λ r h. (refl, refl)) db.friend_requests u,
        )))

  insert_friends-IsOrdered :
      (p : ℕ × ℕ) (s : Db)
      → All IsOrdered s.friends
      → All IsOrdered (insert_friends env p s).1.friends
  unfolding insert_friends
  insert_friends-IsOrdered p s h = ground arith

  insert_friends_unique :
      (p : ℕ × ℕ) (s : Db)
      → UniqueFriends s.friends
      → UniqueFriends (insert_friends env p s).1.friends
  unfolding insert_friends
  insert_friends_unique p s h = ground arith

  marked_friends : (r : FriendRequestRecord) → (marked r).friends ≡ db.friends
  marked_friends r = ground arith

  pub accept_friends-IsOrdered :
      (o : AppResult FriendSummary × Db)
      → Accepted o
      → All IsOrdered db.friends
      → All IsOrdered o.1.friends
  accept_friends-IsOrdered o (r, found, alive, inserted, e) h =
      rw e (insert_friends-IsOrdered (sort_pair from user) (marked r) (rw (marked_friends r) h))

  pub accept_friends_unique :
      (o : AppResult FriendSummary × Db)
      → Accepted o
      → UniqueFriends db.friends
      → UniqueFriends o.1.friends
  accept_friends_unique o (r, found, alive, inserted, e) h =
      rw e (insert_friends_unique (sort_pair from user) (marked r) (rw (marked_friends r) h))

  -- `friends_pair_order_check` lets no one accept a request of his own.
  pub accept_not_self : (o : AppResult FriendSummary × Db) → Accepted o → from ≢ user
  unfolding insert_friends sort_pair
  accept_not_self o (r, found, alive, inserted, e) = ground arith

  -- What is accepted was pending or accepted.
  pub accept_request :
      (o : AppResult FriendSummary × Db)
      → Accepted o
      → (request_status from user db ≡ some pending) ⊎ (request_status from user db ≡ some accepted)
  accept_request o (r, found, alive, inserted, e) = ground arith

  -- A request that is accepted was pending or accepted before and came from another user; it is
  -- accepted then, the two users are friends, and no other two users become friends by it.
  pub accept_befriends :
      is_ok (accept_friend_request env user from db).0 ≡ true
      → ((request_status from user db ≡ some pending)
          ⊎ (request_status from user db ≡ some accepted))
        × (from ≢ user)
        × (request_status from user (accept_friend_request env user from db).1 ≡ some accepted)
        × (are_friends from user (accept_friend_request env user from db).1 ≡ true)
        × ((x y : ℕ)
            → ((sort_pair x y).0 == (sort_pair from user).0
                && (sort_pair x y).1 == (sort_pair from user).1)
              ≡ false
            → are_friends x y (accept_friend_request env user from db).1 ≡ are_friends x y db)
  accept_befriends h =
      let o = accept_friend_request env user from db in
      let a : Accepted o = accept_outcome h in
      (
        accept_request o a,
        accept_not_self o a,
        ground (arith, accept_views from user o a, ==_refl from, ==_refl user),
        ground (
          arith,
          accept_friends from user o a,
          ==_refl (sort_pair from user).0,
          ==_refl (sort_pair from user).1,
        ),
        λ x y k. ground (arith, accept_friends x y o a, k),
      )

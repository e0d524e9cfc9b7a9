-- ===== src/Friendship/Steps.antt =====
-- What sending and rejecting a friend request do to the status of every request and to every
-- friendship.
use sagiton.Prelude.{
  ℕ, ◌≡◌, ◌≢◌, refl, Bool, true, false, ◌&&◌, Option, none, some, arith, ◌==◌, if◌then◌else◌, inl,
  inr, Bool-cases, Option-cases,
}
use sagiton.Shared.{is_ok, AppResult, ok, err, validation, conflict, text}
use sagiton.Database.{continue, or_raise}
use sagiton.Database.Table.{find_where, exists_where}
use sagiton.Schema.{Env, Db, FriendRequestRecord, pending, rejected}
use sagiton.Friendship.{
  upsert_request, is_request, is_pending, are_friends, create_friend_request, reject_friend_request,
}
use sagiton.Friendship.Views.{
  request_status, overwrite, overwrite_pending, status_in-update_where, status_in-reject,
  UniqueRequests, UniqueRequests-update_where,
}

abbrev wrote : AppResult (Option FriendRequestRecord) → Bool
wrote (ok (some _)) = true
wrote (ok none) = false
wrote (err _) = false

module _ (env : Env) (from to : ℕ) (db : Db) where
  abbrev fresh : FriendRequestRecord
  fresh = record {
    from_user_id = from;
    to_user_id = to;
    status = pending;
    created_at = env.db_now;
    responded_at = none;
  }

  overwrite_found :
      (x y : ℕ) (old : FriendRequestRecord)
      → find_where (is_request from to) db.friend_requests ≡ some old
      → (if x == from && y == to
          then overwrite (request_status x y db) pending
          else request_status x y db)
        ≡ (if x == from && y == to then some pending else request_status x y db)
  overwrite_found x y old found = ground arith

  upsert_views :
      (x y : ℕ)
      → request_status x y (upsert_request env from to db).1 ≡ (
          if wrote (upsert_request env from to db).0 && (x == from && y == to)
          then some pending
          else request_status x y db)
  unfolding upsert_request
  upsert_views x y = elim (Bool-cases (from == to)) [
    | inl e ↦ rw e
    | inr e ↦ elim (Option-cases (find_where (is_request from to) db.friend_requests)) [
      | inl absent ↦ rw (e, absent) (ground arith)
      | inr (old, found) ↦ elim (Bool-cases (is_pending old.status)) [
        | inl p ↦ rw (e, found, p)
        | inr p ↦
            rw (e, found, p)
              (rw
                (status_in-update_where from to x y (λ _. fresh) pending (λ r h. ground arith)
                  db.friend_requests)
                (overwrite_found x y old found))
      ]
    ]
  ]

  unfoldable pub incoming : Bool
  incoming = exists_where (λ r. is_request to from r && is_pending r.status) db.friend_requests

  -- The guards, in their order.
  create_guards : create_friend_request env from to db ≡ (
      if from == to
      then (err (validation (text "cannot send friend request to yourself")), db)
      else if are_friends from to db
      then (err (conflict (text "users are already friends")), db)
      else if incoming
      then (err (conflict (text "incoming friend request already exists from this user")), db)
      else continue
          (λ r. or_raise r (conflict (text "friend request is already pending")))
          (upsert_request env from to db))
  unfolding create_friend_request incoming
  create_guards = ground arith

  -- A request that is sent becomes pending, and no other changes; a refused one changes nothing.
  pub create_views :
      (x y : ℕ)
      → request_status x y (create_friend_request env from to db).1 ≡ (
          if is_ok (create_friend_request env from to db).0 && (x == from && y == to)
          then some pending
          else request_status x y db)
  create_views x y = rw create_guards (ground (arith, upsert_views x y))

  pub create_friends : (create_friend_request env from to db).1.friends ≡ db.friends
  unfolding create_friend_request
  create_friends = rw create_guards (unfold upsert_request in ground arith)

  -- What the guards of a request that was sent have found.
  pub create_found :
      is_ok (create_friend_request env from to db).0 ≡ true
      → (from ≢ to) × (are_friends from to db ≡ false) × (incoming ≡ false)
  create_found h = let k = rw create_guards at h in ground arith

  upsert_unique :
      UniqueRequests db.friend_requests
      → UniqueRequests (upsert_request env from to db).1.friend_requests
  unfolding upsert_request
  upsert_unique u = ground (
    arith,
    UniqueRequests-update_where (is_request from to) (λ _. fresh) (λ r h. ground arith)
        db.friend_requests u,
  )

  pub create_unique :
      UniqueRequests db.friend_requests
      → UniqueRequests (create_friend_request env from to db).1.friend_requests
  create_unique u = rw create_guards (ground (arith, upsert_unique u))

module _ (env : Env) (user from : ℕ) (db : Db) where
  pub reject_views :
      (x y : ℕ)
      → request_status x y (reject_friend_request env user from db).1 ≡ (
          if x == from && y == user
          then overwrite_pending (request_status x y db) rejected
          else request_status x y db)
  unfolding reject_friend_request
  reject_views x y = ground (
    arith,
    status_in-reject from user x y
        (λ r. record r { status = rejected; responded_at = some env.db_now }) rejected
        (λ r h. ground arith) db.friend_requests,
  )

  pub reject_friends : (reject_friend_request env user from db).1.friends ≡ db.friends
  unfolding reject_friend_request
  reject_friends = ground arith

  pub reject_unique :
      UniqueRequests db.friend_requests
      → UniqueRequests (reject_friend_request env user from db).1.friend_requests
  unfolding reject_friend_request
  reject_unique u = ground (
    arith,
    UniqueRequests-update_where (λ r. is_request from user r && is_pending r.status)
        (λ r. record r { status = rejected; responded_at = some env.db_now }) (λ r h. (refl, refl))
        db.friend_requests u,
  )

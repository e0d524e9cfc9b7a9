-- ===== src/Friendship/Invariant.antt =====
-- The friendship protocol: whatever requests are sent, accepted and rejected, and by whom, the
-- tables stay consistent.
use sagiton.Prelude.{ℕ, ◌≡◌, ◌≢◌, true, false, none, some, arith, inl, inr, Bool-cases}
use sagiton.Database.Table.{All}
use sagiton.Schema.{Env, Db, pending, accepted}
use sagiton.Shared.{is_ok, AppResult}
use sagiton.Friendship.{
  FriendSummary, are_friends, create_friend_request, accept_friend_request, reject_friend_request,
}
use sagiton.Friendship.Views.{
  request_status, UniqueRequests, exists_pending, IsOrdered, UniqueFriends, are_friends_comm,
  same_pair,
}
use sagiton.Friendship.Steps.{
  incoming, create_views, create_friends, create_found, create_unique, reject_views, reject_friends,
  reject_unique,
}
use sagiton.Friendship.Accept.{
  Accepted, accept_outcome, accept_error, accept_views, accept_friends, accept_unique,
  accept_friends-IsOrdered, accept_friends_unique, accept_not_self, accept_request,
}

-- Primary keys, the order of a friendship, and how the two tables agree.
pub record IsConsistent (db : Db) : Type 0 where
  pub unique_requests : UniqueRequests db.friend_requests
  pub unique_friends : UniqueFriends db.friends
  pub ordered : All IsOrdered db.friends
  pub no_self : (x : ℕ) → request_status x x db ≡ none
  pub one_pending :
      (x y : ℕ) → request_status x y db ≡ some pending → request_status y x db ≢ some pending
  pub strangers : (x y : ℕ) → request_status x y db ≡ some pending → are_friends x y db ≡ false
  pub befriended : (x y : ℕ) → request_status x y db ≡ some accepted → are_friends x y db ≡ true

-- What sending a request needs to know when it succeeds.
incoming_none :
    (env : Env) (from to : ℕ) (db : Db)
    → IsConsistent db
    → incoming env from to db ≡ false
    → request_status to from db ≢ some pending
unfolding incoming
incoming_none env from to db c h =
    ground (arith, exists_pending to from db.friend_requests c.unique_requests)

create-IsConsistent :
    (env : Env) (from to : ℕ) (db : Db)
    → IsConsistent db
    → IsConsistent (create_friend_request env from to db).1
create-IsConsistent env from to db c = record {
  unique_requests = create_unique env from to db c.unique_requests;
  unique_friends = rw (create_friends env from to db) c.unique_friends;
  ordered = rw (create_friends env from to db) c.ordered;
  no_self = λ x.
      ground (arith, create_views env from to db x x, create_found env from to db, c.no_self x);
  one_pending = λ x y. ground (
    arith,
    create_views env from to db x y,
    create_views env from to db y x,
    create_found env from to db,
    incoming_none env from to db c,
    c.one_pending x y,
  );
  strangers = λ x y. rw (create_friends env from to db) (
      ground
        (arith, create_views env from to db x y, create_found env from to db, c.strangers x y));
  befriended = λ x y.
      rw (create_friends env from to db)
        (ground (arith, create_views env from to db x y, c.befriended x y));
}

reject-IsConsistent :
    (env : Env) (user from : ℕ) (db : Db)
    → IsConsistent db
    → IsConsistent (reject_friend_request env user from db).1
reject-IsConsistent env user from db c = record {
  unique_requests = reject_unique env user from db c.unique_requests;
  unique_friends = rw (reject_friends env user from db) c.unique_friends;
  ordered = rw (reject_friends env user from db) c.ordered;
  no_self = λ x. ground (arith, reject_views env user from db x x, c.no_self x);
  one_pending = λ x y. ground (
    arith,
    reject_views env user from db x y,
    reject_views env user from db y x,
    c.one_pending x y,
  );
  strangers = λ x y.
      rw (reject_friends env user from db)
        (ground (arith, reject_views env user from db x y, c.strangers x y));
  befriended = λ x y.
      rw (reject_friends env user from db)
        (ground (arith, reject_views env user from db x y, c.befriended x y));
}

Accepted-IsConsistent :
    (env : Env) (user from : ℕ) (db : Db) (o : AppResult FriendSummary × Db)
    → IsConsistent db
    → Accepted env user from db o
    → IsConsistent o.1
Accepted-IsConsistent env user from db o c a = record {
  unique_requests = accept_unique env user from db o a c.unique_requests;
  unique_friends = accept_friends_unique env user from db o a c.unique_friends;
  ordered = accept_friends-IsOrdered env user from db o a c.ordered;
  no_self = λ x. ground (
    arith,
    accept_views env user from db x x o a,
    accept_not_self env user from db o a,
    c.no_self x,
  );
  one_pending = λ x y. ground (
    arith,
    accept_views env user from db x y o a,
    accept_views env user from db y x o a,
    c.one_pending x y,
  );
  strangers = λ x y. ground (
    arith,
    accept_views env user from db x y o a,
    accept_friends env user from db x y o a,
    accept_request env user from db o a,
    same_pair x y from user,
    are_friends_comm from user db,
    c.strangers x y,
    c.one_pending from user,
    c.befriended from user,
  );
  befriended = λ x y. ground (
    arith,
    accept_views env user from db x y o a,
    accept_friends env user from db x y o a,
    c.befriended x y,
  );
}

accept-IsConsistent :
    (env : Env) (user from : ℕ) (db : Db)
    → IsConsistent db
    → IsConsistent (accept_friend_request env user from db).1
accept-IsConsistent env user from db c =
    elim (Bool-cases (is_ok (accept_friend_request env user from db).0)) [
      | inl done ↦
          Accepted-IsConsistent env user from db (accept_friend_request env user from db) c
            (accept_outcome env user from db done)
      | inr failed ↦ rw (accept_error env user from db failed) c
    ]

-- One call of a client: whoever it is, with whatever arguments, and whether it fails or not.
pub data Step : Db → Db → Type 0 where
  create : (env : Env) (from to : ℕ) (db : Db) → Step db (create_friend_request env from to db).1
  accept :
      (env : Env) (user from : ℕ) (db : Db) → Step db (accept_friend_request env user from db).1
  reject :
      (env : Env) (user from : ℕ) (db : Db) → Step db (reject_friend_request env user from db).1

pub data Reach (s : Db) : Db → Type 0 where
  here : Reach s s
  next : {t u : Db} → Reach s t → Step t u → Reach s u

Step-IsConsistent : {t u : Db} → Step t u → IsConsistent t → IsConsistent u
Step-IsConsistent (create env from to db) c = create-IsConsistent env from to db c
Step-IsConsistent (accept env user from db) c = accept-IsConsistent env user from db c
Step-IsConsistent (reject env user from db) c = reject-IsConsistent env user from db c

-- From a consistent database, any sequence of requests that are sent, accepted and rejected leads to
-- a consistent one: keys are unique, no user has a request to himself, two users have not both a
-- pending request to the other, a pending request is one between users who are no friends, and an
-- accepted one is between friends.
pub Reach-IsConsistent : {s t : Db} → IsConsistent s → Reach s t → IsConsistent t
Reach-IsConsistent c here = c
Reach-IsConsistent c (next r st) = Step-IsConsistent st (Reach-IsConsistent c r)

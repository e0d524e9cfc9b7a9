-- ===== src/Friendship/Tests.antt =====
-- The friendship protocol on two users.
use sagiton.Prelude.{
  ℕ, ◌≡◌, ◌+◌, ◌≢◌, ◌⊎◌, ◌==◌, ◌&&◌, refl, true, false, some, none, [], ◌∷◌, arith,
}
use sagiton.Schema.{Env, Db, UserRecord, pending, accepted, empty_db}
use sagiton.Friendship.{
  insert_friends, friend_summary_for_user, are_friends, sort_pair, create_friend_request,
  accept_friend_request,
}
use sagiton.Friendship.Accept.{accept_error, accept_befriends}
use sagiton.Friendship.Views.{request_status}
use sagiton.Friendship.Invariant.{IsConsistent, create, accept, here, next, Reach-IsConsistent}

abbrev env : Env
env = record { db_now = 10; now_utc = 10; new_v4 = λ i. 100 + i }

abbrev user : ℕ → UserRecord
user id = record { id = id; username = id ∷ []; email = none; password_hash = [] }

abbrev two_users : Db
two_users = record empty_db { users = user 1 ∷ user 2 ∷ [] }

abbrev asked : Db
asked = (create_friend_request env 1 2 two_users).1

abbrev befriended : Db
befriended = (accept_friend_request env 2 1 asked).1

two_users-IsConsistent : IsConsistent two_users
two_users-IsConsistent = record {
  unique_requests = tt;
  unique_friends = tt;
  ordered = tt;
  no_self = λ x. refl;
  one_pending = λ x y h. absurd (ground arith);
  strangers = λ x y h. absurd (ground arith);
  befriended = λ x y h. absurd (ground arith);
}

Reach-IsConsistent_example : IsConsistent befriended
Reach-IsConsistent_example =
    Reach-IsConsistent {s = two_users} {t = befriended} two_users-IsConsistent
      (next (next here (create env 1 2 two_users)) (accept env 2 1 asked))

accept_error_example : (accept_friend_request env 2 1 two_users).1 ≡ two_users
unfolding accept_friend_request
accept_error_example = accept_error env 2 1 two_users refl

abbrev request_from : ℕ
request_from = 1

abbrev request_to : ℕ
request_to = 2

accept_befriends_example :
    ((request_status 1 2 asked ≡ some pending) ⊎ (request_status 1 2 asked ≡ some accepted))
    × (request_from ≢ request_to)
    × (request_status 1 2 befriended ≡ some accepted)
    × (are_friends 1 2 befriended ≡ true)
    × ((x y : ℕ)
        → ((sort_pair x y).0 == (sort_pair 1 2).0 && (sort_pair x y).1 == (sort_pair 1 2).1) ≡ false
        → are_friends x y befriended ≡ are_friends x y asked)
unfolding accept_friend_request create_friend_request insert_friends friend_summary_for_user
accept_befriends_example = accept_befriends env request_to request_from asked refl

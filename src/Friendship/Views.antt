-- ===== src/Friendship/Views.antt =====
-- What a client can see of the friendship tables, and how each write changes it.
use sagiton.Prelude.{
  ℕ, ◌⊎◌, ◌<◌, ◌≡◌, ◌≢◌, refl, Bool, true, false, ◌&&◌, Option, none, some, List, [], ◌∷◌, arith,
  ◌==◌, if◌then◌else◌,
}
use sagiton.Database.Table.{find_where, exists_where, update_where}
use sagiton.Schema.{Db, RequestStatus, FriendRequestRecord, FriendRow}
use sagiton.Friendship.{is_request, is_pending, is_friend_row, are_friends, sort_pair}

-- The status of the request from `x` to `y`.
abbrev pub status_in : ℕ → ℕ → List FriendRequestRecord → Option RequestStatus
status_in x y rows = elim (find_where (is_request x y) rows) [
  | none ↦ none
  | some r ↦ some r.status
]

abbrev pub request_status : ℕ → ℕ → Db → Option RequestStatus
request_status x y db = status_in x y db.friend_requests

abbrev pub overwrite : Option RequestStatus → RequestStatus → Option RequestStatus
overwrite none s = none
overwrite (some _) s = some s

-- An UPDATE of one request shows at its key, and nowhere else.
pub status_in-update_where :
    (a b x y : ℕ) (f : FriendRequestRecord → FriendRequestRecord) (s : RequestStatus)
    → ((r : FriendRequestRecord)
        → is_request a b r ≡ true
        → (is_request a b (f r) ≡ true) × ((f r).status ≡ s))
    → (rows : List FriendRequestRecord)
    → status_in x y (update_where (is_request a b) f rows)
      ≡ (if x == a && y == b then overwrite (status_in x y rows) s else status_in x y rows)
status_in-update_where a b x y f s h [] = ground arith
status_in-update_where a b x y f s h (r ∷ rows) =
    ground (arith, h r, status_in-update_where a b x y f s h rows)

abbrev pub overwrite_pending : Option RequestStatus → RequestStatus → Option RequestStatus
overwrite_pending none s = none
overwrite_pending (some RequestStatus.pending) s = some s
overwrite_pending (some RequestStatus.accepted) s = some RequestStatus.accepted
overwrite_pending (some RequestStatus.rejected) s = some RequestStatus.rejected

-- The same where only a pending request is written. Keys are unique, so the first row is the row.
abbrev pub UniqueRequests : List FriendRequestRecord → Type 0
UniqueRequests [] = Unit
UniqueRequests (r ∷ rows) =
    (find_where (is_request r.from_user_id r.to_user_id) rows ≡ none) × UniqueRequests rows

pub status_in-reject :
    (a b x y : ℕ) (f : FriendRequestRecord → FriendRequestRecord) (s : RequestStatus)
    → ((r : FriendRequestRecord)
        → is_request a b r ≡ true
        → (is_request a b (f r) ≡ true) × ((f r).status ≡ s))
    → (rows : List FriendRequestRecord)
    → status_in x y (update_where (λ r. is_request a b r && is_pending r.status) f rows)
      ≡ (if x == a && y == b then overwrite_pending (status_in x y rows) s else status_in x y rows)
status_in-reject a b x y f s h [] = ground arith
status_in-reject a b x y f s h (r ∷ rows) = ground (arith, h r, status_in-reject a b x y f s h rows)

-- An UPDATE that keeps the keys finds as many rows as before.
pub find_where-update_none :
    (q : FriendRequestRecord → Bool) (f : FriendRequestRecord → FriendRequestRecord) (a b : ℕ)
    → ((r : FriendRequestRecord)
        → q r ≡ true
        → ((f r).from_user_id ≡ r.from_user_id) × ((f r).to_user_id ≡ r.to_user_id))
    → (rows : List FriendRequestRecord) → find_where (is_request a b) rows ≡ none
    → find_where (is_request a b) (update_where q f rows) ≡ none
find_where-update_none q f a b h [] e = refl
find_where-update_none q f a b h (r ∷ rows) e =
    ground (arith, h r, find_where-update_none q f a b h rows)

pub UniqueRequests-update_where :
    (q : FriendRequestRecord → Bool) (f : FriendRequestRecord → FriendRequestRecord)
    → ((r : FriendRequestRecord)
        → q r ≡ true
        → ((f r).from_user_id ≡ r.from_user_id) × ((f r).to_user_id ≡ r.to_user_id))
    → (rows : List FriendRequestRecord) → UniqueRequests rows
    → UniqueRequests (update_where q f rows)
UniqueRequests-update_where q f h [] u = tt
UniqueRequests-update_where q f h (r ∷ rows) u = (
  ground (arith, h r, find_where-update_none q f r.from_user_id r.to_user_id h rows u.0),
  UniqueRequests-update_where q f h rows u.1,
)

-- With unique keys a pending row exists exactly where the status says so.
pub exists_pending :
    (a b : ℕ) (rows : List FriendRequestRecord)
    → UniqueRequests rows
    → exists_where (λ r. is_request a b r && is_pending r.status) rows
      ≡ elim (status_in a b rows) [ some RequestStatus.pending ↦ true | _ ↦ false ]
exists_pending a b [] u = refl
exists_pending a b (r ∷ rows) u = ground (arith, exists_pending a b rows u.1)

-- INSERT INTO friends … ON CONFLICT DO NOTHING makes one pair friends.
pub friends-cons :
    (p q : ℕ × ℕ) (r : FriendRow) (rows : List FriendRow)
    → r.user_id_a ≡ p.0
    → r.user_id_b ≡ p.1
    → exists_where (is_friend_row q) (r ∷ rows)
      ≡ (if q.0 == p.0 && q.1 == p.1 then true else exists_where (is_friend_row q) rows)
friends-cons p q r rows h k = ground arith

abbrev pub IsOrdered : FriendRow → Type 0
IsOrdered r = r.user_id_a < r.user_id_b

abbrev pub UniqueFriends : List FriendRow → Type 0
UniqueFriends [] = Unit
UniqueFriends (r ∷ rows) =
    (exists_where (is_friend_row (r.user_id_a, r.user_id_b)) rows ≡ false) × UniqueFriends rows

pub sort_pair_comm : (a b : ℕ) → sort_pair a b ≡ sort_pair b a
unfolding sort_pair
sort_pair_comm a b = ground arith

pub sort_pair_ordered : (a b : ℕ) → a ≢ b → (sort_pair a b).0 < (sort_pair a b).1
unfolding sort_pair
sort_pair_ordered a b h = ground arith

pub are_friends_comm : (a b : ℕ) (db : Db) → are_friends a b db ≡ are_friends b a db
are_friends_comm a b db = rw (sort_pair_comm a b)

pub same_pair :
    (x y a b : ℕ)
    → (sort_pair x y).0 ≡ (sort_pair a b).0
    → (sort_pair x y).1 ≡ (sort_pair a b).1
    → ((x ≡ a) × (y ≡ b)) ⊎ ((x ≡ b) × (y ≡ a))
unfolding sort_pair
same_pair x y a b h k = ground arith

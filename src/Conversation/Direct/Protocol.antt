-- ===== src/Conversation/Direct/Protocol.antt =====
-- The protocol of a direct thread, without the tables: what a user may do to it, and the view of a
-- thread in the database.
use sagiton.Prelude.{
  ℕ, ◌≡◌, ◌≢◌, ◌⊎◌, Bool, true, false, ◌&&◌, ◌==◌, if◌then◌else◌, Option, none, some,
}
use sagiton.Database.Table.{find_where, exists_where}
use sagiton.Schema.{Db, DirectStatus, ThreadKind, direct, group, ThreadRow}
use sagiton.Friendship.{sort_pair}
use sagiton.Conversation.Direct.Summary.{is_direct_at}

-- A thread that is not there, one that a user asked for, and one that is open to both.
pub data Phase : Type 0 where
  absent : Phase
  requested : (pair : ℕ × ℕ) → (requester : Option ℕ) → Phase
  opened : (pair : ℕ × ℕ) → Phase

abbrev pub IsIn : ℕ → ℕ × ℕ → Type 0
IsIn u p = (p.0 ≡ u) ⊎ (p.1 ≡ u)

-- Which pairs of users are friends, and what it takes that a pair become friends and no others do.
abbrev pub Friends : Type 0
Friends = ℕ × ℕ → Bool

abbrev pub Befriends : ℕ × ℕ → Friends → Friends → Type 0
Befriends p f g = (q : ℕ × ℕ) → g q ≡ (if q.0 == p.0 && q.1 == p.1 then true else f q)

-- What one call of the user `u` does to a thread, and to the friends. A pair that become friends open
-- the thread that one of them asked for, and leave a thread in any other phase as it is.
pub data Move (u : ℕ) : Phase → Friends → Phase → Friends → Type 0 where
  stay : {f : Friends} (x : Phase) → Move u x f x f
  ask :
      {f : Friends} (peer : ℕ)
      → u ≢ peer
      → f (sort_pair u peer) ≡ false
      → Move u absent f (requested (sort_pair u peer) (some u)) f
  open_with_friend :
      {f : Friends} (peer : ℕ)
      → u ≢ peer
      → f (sort_pair u peer) ≡ true
      → Move u absent f (opened (sort_pair u peer)) f
  accept :
      {f : Friends} (p : ℕ × ℕ) (requester : ℕ)
      → requester ≢ u
      → IsIn u p
      → Move u (requested p (some requester)) f (opened p) f
  reject :
      {f : Friends} (p : ℕ × ℕ) (requester : ℕ)
      → requester ≢ u
      → IsIn u p
      → Move u (requested p (some requester)) f absent f
  befriend :
      {f g : Friends} (friend : ℕ) (r : Option ℕ)
      → Befriends (sort_pair friend u) f g
      → Move u (requested (sort_pair friend u) r) f (opened (sort_pair friend u)) g
  befriend_elsewhere :
      {f g : Friends} (friend : ℕ) (x : Phase)
      → Befriends (sort_pair friend u) f g
      → ((r : Option ℕ) → x ≢ requested (sort_pair friend u) r)
      → Move u x f x g

-- Calls of any users, one after another.
pub data Moves (x : Phase) (f : Friends) : Phase → Friends → Type 0 where
  still : Moves x f x f
  move : {y z : Phase} {g h : Friends} (u : ℕ) → Moves x f y g → Move u y g z h → Moves x f z h

abbrev phase_by_status : DirectStatus → ℕ × ℕ → Option ℕ → Phase
phase_by_status DirectStatus.pending p r = requested p r
phase_by_status DirectStatus.active p r = opened p

abbrev pub phase_of_kind : ThreadKind → DirectStatus → Option ℕ → Phase
phase_of_kind (direct a b) s r = phase_by_status s (a, b) r
phase_of_kind (group _ _) s r = absent

abbrev pub phase_of : Option ThreadRow → Phase
phase_of none = absent
phase_of (some t) = phase_of_kind t.kind t.direct_status t.requested_by

-- The phase of the direct thread with an id.
abbrev pub phase : ℕ → Db → Phase
phase id db = phase_of (find_where (is_direct_at id) db.threads)

-- The friends in the database.
abbrev pub befriended : Db → Friends
befriended db p = exists_where (λ r. r.user_id_a == p.0 && r.user_id_b == p.1) db.friends

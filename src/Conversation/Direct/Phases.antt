-- ===== src/Conversation/Direct/Phases.antt =====
-- What the writes on direct threads do to the phase of each thread.
use sagiton.Prelude.{
  ℕ, ◌≡◌, ◌≢◌, ap, sym, false, refl, Bool, true, ◌==◌, ◌&&◌, Option, some, List, [], ◌∷◌, arith,
  if◌then◌else◌, Bool-cases, Option-cases, inl, inr, ==_iff, ==_refl,
}
use mathlib.Core.Path.{subst}
use sagiton.Database.Table.{
  exists_where, find_where, find_where-update_where, find_where-holds, find_where-delete_where_none,
  find_where-delete_where_all,
}
use sagiton.Schema.{Db, FriendRow, DirectStatus, ThreadKind, direct, group, ThreadRow}
use sagiton.Friendship.{is_direct_pair, is_pending_direct}
use sagiton.Conversation.{is_direct}
use sagiton.Conversation.Direct.{activate, activate_thread, delete_thread}
use sagiton.Conversation.Direct.Summary.{is_direct_at}
use sagiton.Conversation.Direct.Protocol.{
  phase_of_kind, absent, requested, opened, Phase, Friends, Move, phase, befriended,
}
use sagiton.Conversation.Direct.Keys.{UniqueIds, found_by_id}
use sagiton.Conversation.Direct.Outcomes.{joined}

first_of_fewer :
    (p q : ThreadRow → Bool) (rows : List ThreadRow) (t : ThreadRow)
    → ((r : ThreadRow) → q r ≡ true → p r ≡ true)
    → find_where p rows ≡ some t
    → q t ≡ true
    → find_where q rows ≡ some t
first_of_fewer p q [] t h e k = absurd (ground arith)
first_of_fewer p q (r ∷ rows) t h e k = ground (arith, h r, first_of_fewer p q rows t h)

-- A thread that a test finds is the direct thread with its id.
pub direct_found :
    (q : ThreadRow → Bool) (rows : List ThreadRow) (t : ThreadRow)
    → UniqueIds rows
    → find_where q rows ≡ some t
    → is_direct t.kind ≡ true
    → find_where (is_direct_at t.id) rows ≡ some t
direct_found q rows t c h k =
    first_of_fewer (λ r. r.id == t.id) (is_direct_at t.id) rows t (λ r e. ground arith)
      (found_by_id q rows t c h) (ground (arith, k, ==_refl t.id))

pub joined_phase :
    (id : ℕ) (p : ℕ × ℕ) (db : Db) (other : ℕ) → phase other (joined id p db) ≡ phase other db
joined_phase id p db other = ground arith

-- The phases after the thread `t` has been opened, and after it has been removed.
pub activated_phase :
    (now : ℕ) (t : ThreadRow) (p : ℕ × ℕ) (db : Db)
    → find_where (is_direct_at t.id) db.threads ≡ some t
    → t.kind ≡ direct p.0 p.1
    → (id : ℕ)
    → phase id (activate_thread now t.id db) ≡ (if t.id == id then opened p else phase id db)
activated_phase now t p db found pair id =
    let law =
      find_where-update_where (is_direct_at id) (λ x. x.id == t.id) (activate now) (λ r e. refl)
        db.threads in
    elim (Option-cases (find_where (is_direct_at id) db.threads)) [
      | inl e ↦ ground (arith, law, found, (==_iff t.id id).0)
      | inr (r, e) ↦
          (let held : is_direct_at id r ≡ true =
              find_where-holds (is_direct_at id) db.threads r e in
            let its_id : r.id ≡ id = (==_iff r.id id).0 (ground arith) in
            ground
              (arith, law, found, (==_iff t.id id).0, (==_iff r.id t.id).0, (==_iff t.id r.id).1))
    ]

pub removed_phase :
    (t : ThreadRow) (db : Db) (id : ℕ)
    → phase id (delete_thread t.id db) ≡ (if t.id == id then absent else phase id db)
removed_phase t db id = elim (Bool-cases (t.id == id)) [
  | inl e ↦ ground (
    arith,
    find_where-delete_where_all (is_direct_at id) (λ r. r.id == t.id)
        (λ r k. ground (arith, (==_iff r.id id).0, (==_iff t.id id).0 e, (==_iff r.id t.id).1))
        db.threads,
  )
  | inr e ↦ ground (
    arith,
    find_where-delete_where_none (is_direct_at id) (λ r. r.id == t.id)
        (λ r k. ground (arith, (==_iff r.id id).0, (==_iff r.id t.id).0, (==_iff t.id id).1))
        db.threads,
  )
]

joined_friends : (id : ℕ) (p : ℕ × ℕ) (db : Db) → (joined id p db).friends ≡ db.friends
joined_friends id p db = ground arith

-- What leads to a database leads to it with two more members.
pub joined-Move :
    (u id : ℕ) (p : ℕ × ℕ) (x : Phase) (f : Friends) (db : Db) (other : ℕ)
    → Move u x f (phase other db) (befriended db)
    → Move u x f (phase other (joined id p db)) (befriended (joined id p db))
joined-Move u id p x f db other m =
    let same : befriended (joined id p db) ≡ befriended db =
      ap {B = Friends}
        (λ (rows : List FriendRow) (q : ℕ × ℕ).
          exists_where (λ r. r.user_id_a == q.0 && r.user_id_b == q.1) rows)
        (joined_friends id p db) in
    rw (joined_phase id p db other) (subst (λ g. Move u x f (phase other db) g) (sym same) m)

-- A thread that becoming friends does not open was not asked for by the pair.
pub not_requested :
    (p : ℕ × ℕ) (k : ThreadKind) (s : DirectStatus) (r r' : Option ℕ)
    → (is_direct_pair p k && is_pending_direct s) ≡ false
    → phase_of_kind k s r ≢ requested p r'
not_requested p (direct a b) DirectStatus.pending r r' h e =
    absurd (ground (arith, ==_refl p.0, ==_refl p.1))
not_requested p (direct a b) DirectStatus.active r r' h e = absurd (ground arith)
not_requested p (group name owner_id) s r r' h e = absurd (ground arith)

-- The phases of a thread that becoming friends opens.
pub opening_phases :
    (p : ℕ × ℕ) (k : ThreadKind) (s : DirectStatus) (r : Option ℕ)
    → (is_direct_pair p k && is_pending_direct s) ≡ true
    → (phase_of_kind k s r ≡ requested p r) × (phase_of_kind k DirectStatus.active r ≡ opened p)
opening_phases p (direct a b) DirectStatus.pending r h =
    let ha : a ≡ p.0 = (==_iff a p.0).0 (ground arith) in
    let hb : b ≡ p.1 = (==_iff b p.1).0 (ground arith) in (rw (ha, hb) refl, rw (ha, hb) refl)
opening_phases p (direct a b) DirectStatus.active r h = absurd (ground arith)
opening_phases p (group name owner_id) s r h = absurd (ground arith)

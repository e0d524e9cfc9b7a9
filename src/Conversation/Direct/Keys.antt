-- ===== src/Conversation/Direct/Keys.antt =====
-- What the keys of `threads` and `thread_members` guarantee, and that the writes on direct threads
-- keep it: a thread is the only one with its id, and the members of a direct thread are its pair.
use sagiton.Prelude.{
  ℕ, ◌≡◌, refl, ap, Bool, true, false, ◌==◌, ◌||◌, ◌&&◌, Option, some, List, [], ◌∷◌, arith,
  if◌then◌else◌, Bool-cases, inl, inr, ==_iff, ==_refl,
}
use sagiton.Database.Table.{
  find_where, exists_where, update_where, delete_where, find_where-update_where,
  exists_where-find_where, find_where-delete_where_none,
}
use sagiton.Schema.{Db, ThreadKind, direct, group, ThreadRow, MemberRow}
use sagiton.Conversation.{is_thread_member, is_member_of}
use sagiton.Conversation.Direct.{join_thread, delete_thread}

abbrev pub thread_at : ℕ → Db → Option ThreadRow
thread_at id db = find_where (λ t. t.id == id) db.threads

-- No id twice.
abbrev pub UniqueIds : List ThreadRow → Type 0
UniqueIds [] = Unit
UniqueIds (t ∷ rows) = (exists_where (λ r. r.id == t.id) rows ≡ false) × UniqueIds rows

-- Whether a user may be a member of a thread of this kind.
abbrev pub may_join : ℕ → ThreadKind → Bool
may_join u (direct a b) = a == u || b == u
may_join u (group _ _) = true

-- A member belongs to a thread that is there, and to a direct thread only as one of its pair.
pub record IsKeyed (db : Db) : Type 0 where
  pub unique : UniqueIds db.threads
  pub paired :
      (id u : ℕ)
      → is_thread_member id u db ≡ true
      → (t : ThreadRow) × (thread_at id db ≡ some t) × (may_join u t.kind ≡ true)

pub found_by_id :
    (q : ThreadRow → Bool) (rows : List ThreadRow) (t : ThreadRow)
    → UniqueIds rows
    → find_where q rows ≡ some t
    → find_where (λ r. r.id == t.id) rows ≡ some t
found_by_id q [] t k h = absurd (ground arith)
found_by_id q (r ∷ rows) t k h = elim (Bool-cases (q r)) [
  | inl e ↦ ground (arith, ==_refl t.id)
  | inr e ↦
      (let rest : find_where (λ x. x.id == t.id) rows ≡ some t =
          found_by_id q rows t k.1 (rw e at h) in
        ground (
          arith,
          k.0,
          exists_where-find_where (λ (x : ThreadRow). x.id == t.id) rows,
          (==_iff r.id t.id).0,
        ))
]

ids_kept :
    (q : ThreadRow → Bool) (f : ThreadRow → ThreadRow)
    → ((t : ThreadRow) → (f t).id ≡ t.id)
    → (n : ℕ) (rows : List ThreadRow)
    → exists_where (λ r. r.id == n) (update_where q f rows) ≡ exists_where (λ r. r.id == n) rows
ids_kept q f keeps n [] = refl
ids_kept q f keeps n (t ∷ rows) = ground (arith, keeps t, ids_kept q f keeps n rows)

fewer_ids :
    (q : ThreadRow → Bool) (n : ℕ) (rows : List ThreadRow)
    → exists_where (λ r. r.id == n) rows ≡ false
    → exists_where (λ r. r.id == n) (delete_where q rows) ≡ false
fewer_ids q n [] h = refl
fewer_ids q n (t ∷ rows) h = ground (arith, fewer_ids q n rows)

update-UniqueIds :
    (q : ThreadRow → Bool) (f : ThreadRow → ThreadRow)
    → ((t : ThreadRow) → (f t).id ≡ t.id)
    → (rows : List ThreadRow) → UniqueIds rows
    → UniqueIds (update_where q f rows)
update-UniqueIds q f keeps [] k = tt
update-UniqueIds q f keeps (t ∷ rows) k = (
  ground (arith, k.0, keeps t, ids_kept q f keeps (if q t then f t else t).id rows),
  update-UniqueIds q f keeps rows k.1,
)

delete-UniqueIds :
    (q : ThreadRow → Bool) (rows : List ThreadRow)
    → UniqueIds rows
    → UniqueIds (delete_where q rows)
delete-UniqueIds q [] k = tt
delete-UniqueIds q (t ∷ rows) k = elim (Bool-cases (q t)) [
  | inl e ↦ rw e (delete-UniqueIds q rows k.1)
  | inr e ↦ rw e (fewer_ids q t.id rows k.0, delete-UniqueIds q rows k.1)
]

pub update-IsKeyed :
    (q : ThreadRow → Bool) (f : ThreadRow → ThreadRow)
    → ((t : ThreadRow) → (f t).id ≡ t.id)
    → ((t : ThreadRow) → (f t).kind ≡ t.kind)
    → (db db' : Db) → db'.threads ≡ update_where q f db.threads
    → db'.thread_members ≡ db.thread_members
    → IsKeyed db
    → IsKeyed db'
update-IsKeyed q f ids kinds db db' p m c = record {
  unique = rw p (update-UniqueIds q f ids db.threads c.unique);
  paired = λ id u h.
      let (t, found, joins) = c.paired id u (ground (arith, m)) in
      let law =
        find_where-update_where (λ r. r.id == id) q f (λ r e. ap (λ (n : ℕ). n == id) (ids r))
          db.threads in
      (if q t then f t else t, ground (arith, law, p), ground (arith, kinds t));
}

no_members :
    (id : ℕ) (v : ℕ) (rows : List MemberRow)
    → exists_where (is_member_of id v) (delete_where (λ m. m.scope_id == id) rows) ≡ false
no_members id v [] = refl
no_members id v (m ∷ rows) = ground (arith, no_members id v rows)

members_left :
    (id other v : ℕ) (rows : List MemberRow)
    → exists_where (is_member_of other v) (delete_where (λ m. m.scope_id == id) rows) ≡ true
    → ((id == other) ≡ false) × (exists_where (is_member_of other v) rows ≡ true)
members_left id other v [] h = absurd (ground arith)
members_left id other v (m ∷ rows) h = ground (
  arith,
  members_left id other v rows,
  (==_iff m.scope_id other).0,
  (==_iff id other).0,
  (==_iff m.scope_id id).1,
)

pub delete-IsKeyed : (id : ℕ) (db : Db) → IsKeyed db → IsKeyed (delete_thread id db)
delete-IsKeyed id db c = record {
  unique = delete-UniqueIds (λ t. t.id == id) db.threads c.unique;
  paired = λ other u h.
      let left = members_left id other u db.thread_members h in
      let (t, found, joins) = c.paired other u left.1 in
      let law =
        find_where-delete_where_none (λ r. r.id == other) (λ r. r.id == id)
          (λ r e.
            ground (arith, left.0, (==_iff r.id other).0, (==_iff r.id id).0, (==_iff id other).1))
          db.threads in
      (t, ground (arith, law), joins);
}

pub cons-IsKeyed :
    (t : ThreadRow) (db : Db)
    → exists_where (λ r. r.id == t.id) db.threads ≡ false
    → IsKeyed db
    → IsKeyed (record db { threads = t ∷ db.threads })
cons-IsKeyed t db fresh c = record {
  unique = (fresh, c.unique);
  paired = λ id u h.
      let (row, found, joins) = c.paired id u h in
      (
        row,
        ground (
          arith,
          fresh,
          exists_where-find_where (λ (r : ThreadRow). r.id == t.id) db.threads,
          (==_iff t.id id).0,
        ),
        joins,
      );
}

pub join-IsKeyed :
    (id u : ℕ) (db : Db) (t : ThreadRow)
    → thread_at id db ≡ some t
    → may_join u t.kind ≡ true
    → IsKeyed db
    → IsKeyed (join_thread id u db)
join-IsKeyed id u db t h k c = elim (Bool-cases (is_thread_member id u db)) [
  | inl e ↦ rw e c
  | inr e ↦ rw e (record {
    unique = c.unique;
    paired = λ other v m. elim (Bool-cases (id == other && u == v)) [
      | inl same ↦ (t, ground (arith, (==_iff id other).0), ground (arith, (==_iff u v).0))
      | inr differ ↦ c.paired other v (ground arith)
    ];
  })
]

-- ===== src/Message/Feed.antt =====
-- The order in which messages are listed.
use sagiton.Prelude.{
  ℕ, ◌≡◌, ◌⊎◌, ◌<◌, ltb, is_none, ==_iff, refl, Bool, true, false, ◌&&◌, ◌==◌, none, List, [], ◌∷◌,
  arith, Bool-cases, inl, inr, if◌then◌else◌,
}
use sagiton.Database.Table.{select_where, count_where, All, All-imp}
use sagiton.Schema.{MessageRecord}
use sagiton.Message.{newer, put_newest, newest_first, is_listed, rows_before}

-- No two messages have the same id.
abbrev pub UniqueIds : List MessageRecord → Type 0
UniqueIds [] = Unit
UniqueIds (m ∷ rows) = All (λ x. (m.id == x.id) ≡ false) rows × UniqueIds rows

-- Strictly from the newest to the oldest.
abbrev pub IsSorted : List MessageRecord → Type 0
IsSorted [] = Unit
IsSorted (m ∷ rows) = All (λ x. newer m x ≡ true) rows × IsSorted rows

newer_trans : (a b c : MessageRecord) → newer a b ≡ true → newer b c ≡ true → newer a c ≡ true
newer_trans a b c h k = ground arith

newer_total : (a b : MessageRecord) → (a.id == b.id) ≡ false → newer a b ≡ false → newer b a ≡ true
newer_total a b h k = ground arith

pub newer_asym : (a b : MessageRecord) → newer a b ≡ true → newer b a ≡ false
newer_asym a b h = ground arith

pub All-put_newest :
    (P : MessageRecord → Type 0) (m : MessageRecord) (rows : List MessageRecord)
    → P m
    → All P rows
    → All P (put_newest m rows)
All-put_newest P m [] h a = (h, tt)
All-put_newest P m (x ∷ rows) h a = elim (Bool-cases (newer m x)) [
  | inl e ↦ rw e (h, a)
  | inr e ↦ rw e (a.0, All-put_newest P m rows h a.1)
]

pub All-newest_first :
    (P : MessageRecord → Type 0) (rows : List MessageRecord)
    → All P rows
    → All P (newest_first rows)
All-newest_first P [] a = tt
All-newest_first P (m ∷ rows) a =
    All-put_newest P m (newest_first rows) a.0 (All-newest_first P rows a.1)

put_newest-IsSorted :
    (m : MessageRecord) (rows : List MessageRecord)
    → All (λ x. (m.id == x.id) ≡ false) rows
    → IsSorted rows
    → IsSorted (put_newest m rows)
put_newest-IsSorted m [] d s = (tt, tt)
put_newest-IsSorted m (x ∷ rows) d s = elim (Bool-cases (newer m x)) [
  | inl e ↦ rw e ((e, All-imp (λ y h. newer_trans m x y e h) rows s.0), s)
  | inr e ↦ rw e (
    All-put_newest (λ y. newer x y ≡ true) m rows (newer_total m x d.0 e) s.0,
    put_newest-IsSorted m rows d.1 s.1,
  )
]

pub newest_first-IsSorted :
    (rows : List MessageRecord) → UniqueIds rows → IsSorted (newest_first rows)
newest_first-IsSorted [] u = tt
newest_first-IsSorted (m ∷ rows) u =
    put_newest-IsSorted m (newest_first rows)
      (All-newest_first (λ x. (m.id == x.id) ≡ false) rows u.0) (newest_first-IsSorted rows u.1)

pub All-select_where :
    (P : MessageRecord → Type 0) (p : MessageRecord → Bool) (rows : List MessageRecord)
    → All P rows
    → All P (select_where p rows)
All-select_where P p [] a = tt
All-select_where P p (m ∷ rows) a = elim (Bool-cases (p m)) [
  | inl e ↦ rw e (a.0, All-select_where P p rows a.1)
  | inr e ↦ rw e (All-select_where P p rows a.1)
]

pub UniqueIds-select_where :
    (p : MessageRecord → Bool) (rows : List MessageRecord)
    → UniqueIds rows
    → UniqueIds (select_where p rows)
UniqueIds-select_where p [] u = tt
UniqueIds-select_where p (m ∷ rows) u = elim (Bool-cases (p m)) [
  | inl e ↦
      rw e (
        All-select_where (λ x. (m.id == x.id) ≡ false) p rows u.0,
        UniqueIds-select_where p rows u.1,
      )
  | inr e ↦ rw e (UniqueIds-select_where p rows u.1)
]

-- Sorting and picking commute.
put_before :
    (m : MessageRecord) (p : MessageRecord → Bool) (rows : List MessageRecord)
    → All (λ x. newer m x ≡ true) rows
    → put_newest m (select_where p rows) ≡ m ∷ select_where p rows
put_before m p [] a = refl
put_before m p (x ∷ rows) a = ground (arith, put_before m p rows a.1, a.0)

select_where-put_newest :
    (p : MessageRecord → Bool) (m : MessageRecord) (rows : List MessageRecord)
    → IsSorted rows
    → select_where p (put_newest m rows)
      ≡ (if p m then put_newest m (select_where p rows) else select_where p rows)
select_where-put_newest p m [] s = ground arith
select_where-put_newest p m (x ∷ rows) s = elim (Bool-cases (newer m x)) [
  | inl e ↦ ground (arith, put_before m p rows (All-imp (λ y h. newer_trans m x y e h) rows s.0))
  | inr e ↦ ground (arith, select_where-put_newest p m rows s.1)
]

pub select_where-newest_first :
    (p : MessageRecord → Bool) (rows : List MessageRecord)
    → UniqueIds rows
    → select_where p (newest_first rows) ≡ newest_first (select_where p rows)
select_where-newest_first p [] u = refl
select_where-newest_first p (m ∷ rows) u = ground (
  arith,
  select_where-put_newest p m (newest_first rows) (newest_first-IsSorted rows u.1),
  select_where-newest_first p rows u.1,
)

pub select_where-select_where :
    (p q : MessageRecord → Bool) (rows : List MessageRecord)
    → select_where q (select_where p rows) ≡ select_where (λ m. p m && q m) rows
select_where-select_where p q [] = refl
select_where-select_where p q (m ∷ rows) = ground (arith, select_where-select_where p q rows)

count-put_newest :
    (p : MessageRecord → Bool) (m : MessageRecord) (rows : List MessageRecord)
    → count_where p (put_newest m rows) ≡ count_where p (m ∷ rows)
count-put_newest p m [] = refl
count-put_newest p m (x ∷ rows) = ground (arith, count-put_newest p m rows)

count-newest_first :
    (p q : MessageRecord → Bool) (rows : List MessageRecord)
    → count_where p (newest_first (select_where q rows)) ≡ count_where (λ m. q m && p m) rows
count-newest_first p q [] = refl
count-newest_first p q (m ∷ rows) =
    ground (
      arith,
      count-newest_first p q rows,
      count-put_newest p m (newest_first (select_where q rows)),
    )

-- The first was created later, or at the same time under a greater id.
abbrev pub IsAfter : MessageRecord → MessageRecord → Type 0
IsAfter a b = (b.created_at < a.created_at) ⊎ ((a.created_at ≡ b.created_at) × (b.id < a.id))

-- Every message comes after all that follow it in the list.
abbrev pub IsNewestFirst : List MessageRecord → Type 0
IsNewestFirst [] = Unit
IsNewestFirst (m ∷ rows) = All (IsAfter m) rows × IsNewestFirst rows

newer-IsAfter : (a b : MessageRecord) → newer a b ≡ true → IsAfter a b
newer-IsAfter a b h = elim (Bool-cases (ltb b.created_at a.created_at)) [
  | inl e ↦ inl (ground arith)
  | inr e ↦ inr (ground (arith, (==_iff b.created_at a.created_at).0), ground arith)
]

IsSorted-IsNewestFirst : (rows : List MessageRecord) → IsSorted rows → IsNewestFirst rows
IsSorted-IsNewestFirst [] s = tt
IsSorted-IsNewestFirst (m ∷ rows) s =
    (All-imp (newer-IsAfter m) rows s.0, IsSorted-IsNewestFirst rows s.1)

-- A channel lists its messages strictly from the newest to the oldest, those of one time by
-- descending ids, each message of the channel that is not deleted exactly as often as the table has
-- it, and none other, if no two messages share an id.
pub rows_before_lists :
    (scope : ℕ) (rows : List MessageRecord)
    → UniqueIds rows
    → IsNewestFirst (rows_before scope none rows)
      × ((p : MessageRecord → Bool)
          → count_where p (rows_before scope none rows)
            ≡ count_where (λ m. (m.scope_id == scope && is_none m.deleted_at) && p m) rows)
rows_before_lists scope rows u = (
  IsSorted-IsNewestFirst (rows_before scope none rows)
      (newest_first-IsSorted _ (UniqueIds-select_where (is_listed scope) rows u)),
  λ p. count-newest_first p (is_listed scope) rows,
)

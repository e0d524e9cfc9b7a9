-- ===== src/Database/Table.antt =====
-- A table is a list of rows; a statement picks its rows by a Boolean test. The laws say what a
-- query finds after a write.
use mathlib.Core.Path.{subst}
use sagiton.Prelude.{
  ◌≡◌, refl, Bool, true, false, ◌||◌, Option, none, some, List, [], ◌∷◌, arith, is_some,
  if◌then◌else◌, ℕ, suc, inl, inr, Bool-cases,
}

module _ {R : Type 0} where
  -- SELECT … WHERE test LIMIT 1
  abbrev pub find_where : (R → Bool) → List R → Option R
  find_where test [] = none
  find_where test (r ∷ rows) = if test r then some r else find_where test rows

  -- SELECT EXISTS(SELECT 1 … WHERE test)
  abbrev pub exists_where : (R → Bool) → List R → Bool
  exists_where test [] = false
  exists_where test (r ∷ rows) = test r || exists_where test rows

  -- SELECT … WHERE test
  abbrev pub select_where : (R → Bool) → List R → List R
  select_where test [] = []
  select_where test (r ∷ rows) =
      let rest = select_where test rows in if test r then r ∷ rest else rest

  -- UPDATE … SET set WHERE test
  abbrev pub update_where : (R → Bool) → (R → R) → List R → List R
  update_where test set [] = []
  update_where test set (r ∷ rows) = (if test r then set r else r) ∷ update_where test set rows

  -- DELETE … WHERE test
  abbrev pub delete_where : (R → Bool) → List R → List R
  delete_where test [] = []
  delete_where test (r ∷ rows) =
      let rest = delete_where test rows in if test r then rest else r ∷ rest

  -- The number of rows that satisfy a test.
  abbrev pub count_where : (R → Bool) → List R → ℕ
  count_where test [] = 0
  count_where test (r ∷ rows) =
      let rest = count_where test rows in if test r then suc rest else rest

  abbrev pub All : (R → Type 0) → List R → Type 0
  All P [] = Unit
  All P (r ∷ rows) = P r × All P rows

module _ {R : Type 0} where
  pub exists_where-find_where :
      (p : R → Bool) (rows : List R) → exists_where p rows ≡ is_some (find_where p rows)
  exists_where-find_where p [] = refl
  exists_where-find_where p (r ∷ rows) = ground (arith, exists_where-find_where p rows)

  pub find_where-holds :
      (p : R → Bool) (rows : List R) (r : R) → find_where p rows ≡ some r → p r ≡ true
  find_where-holds p [] r h = cc
  find_where-holds p (x ∷ rows) r h = ground (arith, find_where-holds p rows r)

  -- A write that keeps what the test reads changes the row that is found, and no other.
  pub find_where-update_where :
      (p q : R → Bool) (f : R → R)
      → ((r : R) → q r ≡ true → p (f r) ≡ p r)
      → (rows : List R)
      → find_where p (update_where q f rows)
        ≡ elim (find_where p rows) [ none ↦ none | some r ↦ some (if q r then f r else r) ]
  find_where-update_where p q f h [] = refl
  find_where-update_where p q f h (r ∷ rows) =
      ground (arith, h r, find_where-update_where p q f h rows)

  pub find_where-delete_where_all :
      (p q : R → Bool)
      → ((r : R) → p r ≡ true → q r ≡ true)
      → (rows : List R) → find_where p (delete_where q rows) ≡ none
  find_where-delete_where_all p q h [] = refl
  find_where-delete_where_all p q h (r ∷ rows) =
      ground (arith, h r, find_where-delete_where_all p q h rows)

  pub find_where-delete_where_none :
      (p q : R → Bool)
      → ((r : R) → p r ≡ true → q r ≡ false)
      → (rows : List R) → find_where p (delete_where q rows) ≡ find_where p rows
  find_where-delete_where_none p q h [] = refl
  find_where-delete_where_none p q h (r ∷ rows) =
      ground (arith, h r, find_where-delete_where_none p q h rows)

  pub find_where-none_imp :
      (p q : R → Bool)
      → ((r : R) → q r ≡ true → p r ≡ true)
      → (rows : List R) → find_where p rows ≡ none
      → find_where q rows ≡ none
  find_where-none_imp p q h [] e = refl
  find_where-none_imp p q h (r ∷ rows) e = ground (arith, h r, find_where-none_imp p q h rows)

  pub All-imp :
      {P Q : R → Type 0} → ((r : R) → P r → Q r) → (rows : List R) → All P rows → All Q rows
  All-imp f [] h = tt
  All-imp f (r ∷ rows) h = (f r h.0, All-imp f rows h.1)

  pub All-update_where :
      {P Q : R → Type 0} (q : R → Bool) (f : R → R)
      → ((r : R) → P r → q r ≡ true → Q (f r))
      → ((r : R) → P r → q r ≡ false → Q r)
      → (rows : List R) → All P rows
      → All Q (update_where q f rows)
  All-update_where q f h k [] a = tt
  All-update_where {Q = Q} q f h k (r ∷ rows) a = (go (q r) refl, All-update_where q f h k rows a.1)
    where
      go : (b : Bool) → q r ≡ b → Q (if b then f r else r)
      go true e = h r a.0 e
      go false e = k r a.0 e

  pub All-delete_where :
      (P : R → Type 0) (q : R → Bool) (rows : List R) → All P rows → All P (delete_where q rows)
  All-delete_where P q [] a = tt
  All-delete_where P q (r ∷ rows) a = elim (Bool-cases (q r)) [
    | inl e ↦ rw e (All-delete_where P q rows a.1)
    | inr e ↦ rw e (a.0, All-delete_where P q rows a.1)
  ]

  pub All-find_where :
      (P : R → Type 0) (p : R → Bool) (rows : List R) (r : R)
      → All P rows
      → find_where p rows ≡ some r
      → P r
  All-find_where P p [] r a h = absurd (cc)
  All-find_where P p (x ∷ rows) r a h = elim (Bool-cases (p x)) [
    | inl e ↦ let same : x ≡ r = ground arith in subst P same a.0
    | inr e ↦ All-find_where P p rows r a.1 (rw e at h)
  ]

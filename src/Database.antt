-- ===== src/Database.antt =====
-- Statements against the database, as functions of its state that may fail, and the statements on
-- one table. A statement that runs on the pool commits by itself, so what was written before an
-- error stays written; `transaction` (`pool.begin` up to `tx.commit`) rolls back on an error.
pub mod Table
pub mod Preserve
use sagiton.Prelude.{◌≡◌, refl, Bool, true, false, Option}
use sagiton.Shared.{AppError, AppResult, ok, err, ok_or}

abbrev pub Tx : Type 0 → Type 0 → Type 0
Tx S A = S → AppResult A × S

module _ {S A : Type 0} where
  abbrev pub pure : A → Tx S A
  pure a s = (ok a, s)

  abbrev pub raise : AppError → Tx S A
  raise e s = (err e, s)

  abbrev pub lift : AppResult A → Tx S A
  lift r s = (r, s)

  -- A query that writes nothing.
  abbrev pub gets : (S → A) → Tx S A
  gets f s = (ok (f s), s)

  -- `query.ok_or_else(e)?`
  abbrev pub or_raise : Option A → AppError → Tx S A
  or_raise o e s = (ok_or o e, s)

  abbrev pub roll_back : S → AppResult A × S → AppResult A × S
  roll_back s (ok a, s') = (ok a, s')
  roll_back s (err e, s') = (err e, s)

  abbrev pub transaction : Tx S A → Tx S A
  transaction m s = roll_back s (m s)

module _ {S A B : Type 0} where
  abbrev pub continue : (A → Tx S B) → AppResult A × S → AppResult B × S
  continue f (ok a, s) = f a s
  continue f (err e, s) = (err e, s)

  infixl 5 ◌>>=◌ ◌>>◌
  abbrev pub ◌>>=◌ : Tx S A → (A → Tx S B) → Tx S B
  ◌>>=◌ m f s = continue f (m s)

  abbrev pub ◌>>◌ : Tx S A → Tx S B → Tx S B
  ◌>>◌ m k = m >>= λ _. k

-- `if test { return Err(e); }`
abbrev pub refuse_if : {S : Type 0} → Bool → AppError → Tx S (Unit {0})
refuse_if true e s = (err e, s)
refuse_if false e s = (ok tt, s)

abbrev pub modify : {S : Type 0} → (S → S) → Tx S (Unit {0})
modify f s = (ok tt, f s)

-- A transaction that fails leaves the database as it was.
pub transaction_atomic :
    {S A : Type 0} (m : Tx S A) (s : S) (e : AppError)
    → (transaction m s).0 ≡ err e
    → (transaction m s).1 ≡ s
transaction_atomic {S} {A} m s e h = go (m s) h
  where
    go : (r : AppResult A × S) → (roll_back s r).0 ≡ err e → (roll_back s r).1 ≡ s
    go (ok a, s') k = cc
    go (err d, s') k = refl

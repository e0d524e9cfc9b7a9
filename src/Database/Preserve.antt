-- ===== src/Database/Preserve.antt =====
-- What a chain of statements keeps of the database, from what each of its statements keeps.
use sagiton.Prelude.{◌≡◌, refl, Bool, true, false, Option}
use sagiton.Shared.{AppError, AppResult, ok, err}
use sagiton.Database.{
  Tx, pure, lift, gets, or_raise, roll_back, transaction, continue, ◌>>=◌, refuse_if, modify,
}

-- Where the statements succeed on a state with `P`, they leave one with `Q`.
unfoldable pub Leads : {S A : Type 0} → (S → Type 0) → (S → Type 0) → Tx S A → Type 0
Leads {S} {A} P Q m = (s : S) → P s → (a : A) → (m s).0 ≡ ok a → Q (m s).1

-- The statements keep the invariant, whether they succeed or not.
unfoldable pub Preserves : {S A : Type 0} → (S → Type 0) → Tx S A → Type 0
Preserves {S} I m = (s : S) → I s → I (m s).1

module _ {S A : Type 0} (I : S → Type 0) where
  pub pure-Preserves : (a : A) → Preserves I (pure {S = S} a)
  unfolding Preserves
  pure-Preserves a s i = i

  pub lift-Preserves : (r : AppResult A) → Preserves I (lift {S = S} r)
  unfolding Preserves
  lift-Preserves r s i = i

  pub gets-Preserves : (f : S → A) → Preserves I (gets f)
  unfolding Preserves
  gets-Preserves f s i = i

  pub or_raise-Preserves : (o : Option A) (e : AppError) → Preserves I (or_raise {S = S} o e)
  unfolding Preserves
  or_raise-Preserves o e s i = i

  pub transaction-Preserves : (m : Tx S A) → Preserves I m → Preserves I (transaction m)
  unfolding Preserves
  transaction-Preserves m p s i = go (m s) (p s i)
    where
      go : (r : AppResult A × S) → I r.1 → I (roll_back s r).1
      go (ok a, t) j = j
      go (err e, t) j = i

pub refuse_if-Preserves :
    {S : Type 0} (I : S → Type 0) (test : Bool) (e : AppError)
    → Preserves I (refuse_if {S = S} test e)
unfolding Preserves
refuse_if-Preserves I true e s i = i
refuse_if-Preserves I false e s i = i

module _ {S A B : Type 0} (I : S → Type 0) where
  pub bind-Preserves :
      (m : Tx S A) (k : A → Tx S B)
      → Preserves I m
      → ((a : A) → Preserves I (k a))
      → Preserves I (m >>= k)
  unfolding Preserves
  bind-Preserves m k p q s i = go (m s) (p s i)
    where
      go : (r : AppResult A × S) → I r.1 → I (continue k r).1
      go (ok a, t) j = q a t j
      go (err e, t) j = j

  pub bind-Leads :
      (P Q : S → Type 0) (m : Tx S A) (k : A → Tx S B)
      → Leads P Q m
      → ((a : A) → Leads Q I (k a))
      → Leads P I (m >>= k)
  unfolding Leads
  bind-Leads P Q m k p q s i b = go (m s) (p s i)
    where
      go :
          (r : AppResult A × S)
          → ((a : A) → r.0 ≡ ok a → Q r.1)
          → (continue k r).0 ≡ ok b
          → I (continue k r).1
      go (ok a, t) j h = q a t (j a refl) b h
      go (err e, t) j h = absurd (cc)

module _ {S A : Type 0} (I : S → Type 0) where
  pub Preserves-Leads : (m : Tx S A) → Preserves I m → Leads I I m
  unfolding Preserves Leads
  Preserves-Leads m p s i a h = p s i

  -- A transaction keeps what it establishes where it succeeds.
  pub transaction-Leads : (m : Tx S A) → Leads I I m → Preserves I (transaction m)
  unfolding Preserves Leads
  transaction-Leads m p s i = go (m s) (p s i)
    where
      go : (r : AppResult A × S) → ((a : A) → r.0 ≡ ok a → I r.1) → I (roll_back s r).1
      go (ok a, t) j = j a refl
      go (err e, t) j = i

pub modify-Preserves :
    {S : Type 0} (I : S → Type 0) (f : S → S) → ((s : S) → I s → I (f s)) → Preserves I (modify f)
unfolding Preserves
modify-Preserves I f h s i = h s i

-- ===== src/Collections.antt =====
-- The standard library's HashMap and HashSet with UUID keys, as association lists and as lists
-- without repetition. The order of iteration is left open by Rust; here it is the list's.
pub mod Scope
use sagiton.Prelude.{
  ℕ, ◌≡◌, refl, Bool, true, false, ◌&&◌, ◌||◌, Option, none, some, List, [], ◌∷◌, arith, ◌==◌,
  if◌then◌else◌,
}

abbrev pub HashMap : Type 0 → Type 0
HashMap V = List (ℕ × V)

module _ {V : Type 0} where
  unfoldable pub get : ℕ → HashMap V → Option V
  get k [] = none
  get k ((j, v) ∷ m) = if j == k then some v else get k m

  unfoldable pub remove : ℕ → HashMap V → HashMap V
  remove k [] = []
  remove k ((j, v) ∷ m) = let rest = remove k m in if j == k then rest else (j, v) ∷ rest

  unfoldable pub insert : ℕ → V → HashMap V → HashMap V
  unfolding remove
  insert k v m = (k, v) ∷ remove k m

module _ {V : Type 0} where
  pub get-remove :
      (k j : ℕ) (m : HashMap V) → get j (remove k m) ≡ (if k == j then none else get j m)
  unfolding get remove
  get-remove k j [] = ground arith
  get-remove k j ((i, v) ∷ m) = ground (arith, get-remove k j m)

  pub get-insert :
      (k j : ℕ) (v : V) (m : HashMap V)
      → get j (insert k v m) ≡ (if k == j then some v else get j m)
  get-insert k j v m = unfold get insert in rw (get-remove k j m) (ground arith)

  -- No key twice.
  abbrev pub UniqueKeys : HashMap V → Type 0
  UniqueKeys [] = Unit
  UniqueKeys ((k, v) ∷ m) = (get k m ≡ none) × UniqueKeys m

  pub remove-UniqueKeys : (k : ℕ) (m : HashMap V) → UniqueKeys m → UniqueKeys (remove k m)
  unfolding remove
  remove-UniqueKeys k [] u = tt
  remove-UniqueKeys k ((j, v) ∷ m) u = ground (arith, remove-UniqueKeys k m u.1, get-remove k j m)

  pub insert-UniqueKeys : (k : ℕ) (v : V) (m : HashMap V) → UniqueKeys m → UniqueKeys (insert k v m)
  insert-UniqueKeys k v m u =
      unfold insert in (ground (arith, get-remove k k m), remove-UniqueKeys k m u)

abbrev pub HashSet : Type 0
HashSet = List ℕ

unfoldable pub contains : ℕ → HashSet → Bool
contains k [] = false
contains k (j ∷ s) = j == k || contains k s

unfoldable pub set_insert : ℕ → HashSet → HashSet
unfolding contains
set_insert k s = if contains k s then s else k ∷ s

unfoldable pub set_remove : ℕ → HashSet → HashSet
set_remove k [] = []
set_remove k (j ∷ s) = let rest = set_remove k s in if j == k then rest else j ∷ rest

abbrev pub NoRepeats : HashSet → Type 0
NoRepeats [] = Unit
NoRepeats (k ∷ s) = (contains k s ≡ false) × NoRepeats s

pub contains-set_insert :
    (k j : ℕ) (s : HashSet) → contains j (set_insert k s) ≡ (k == j || contains j s)
unfolding contains set_insert
contains-set_insert k j s = ground arith

pub contains-set_remove :
    (k j : ℕ) (s : HashSet) → contains j (set_remove k s) ≡ (if k == j then false else contains j s)
unfolding contains set_remove
contains-set_remove k j [] = ground arith
contains-set_remove k j (i ∷ s) = ground (arith, contains-set_remove k j s)

pub set_insert-NoRepeats : (k : ℕ) (s : HashSet) → NoRepeats s → NoRepeats (set_insert k s)
unfolding set_insert
set_insert-NoRepeats k s h = ground arith

pub set_remove-NoRepeats : (k : ℕ) (s : HashSet) → NoRepeats s → NoRepeats (set_remove k s)
unfolding set_remove
set_remove-NoRepeats k [] h = tt
set_remove-NoRepeats k (j ∷ s) h =
    ground (arith, set_remove-NoRepeats k s h.1, contains-set_remove k j s)

-- ===== src/Validation/Members.antt =====
-- The member list of a new group.
use sagiton.Prelude.{
  ℕ, ◌≤◌, ◌<◌, ◌≡◌, refl, ◌&&◌, ◌||◌, List, [], ◌∷◌, arith, ltb, ◌==◌, if◌then◌else◌, length, not,
}
use sagiton.Shared.{ok, err, validation, text}
use sagiton.Text.{is_empty}
use sagiton.Collections.{contains}
use sagiton.Validation.{btree_insert, collect_members, normalize_member_ids}

-- Strictly ascending, above a bound that stands before.
abbrev pub IsAscending : List ℕ → Type 0
IsAscending [] = Unit
IsAscending (x ∷ []) = Unit
IsAscending (x ∷ y ∷ ys) = (x < y) × IsAscending (y ∷ ys)

contains-btree_insert :
    (x k : ℕ) (ys : List ℕ) → contains k (btree_insert x ys) ≡ (x == k || contains k ys)
unfolding contains btree_insert
contains-btree_insert x k [] = refl
contains-btree_insert x k (y ∷ ys) = ground (arith, contains-btree_insert x k ys)

btree_insert-IsAscending : (x : ℕ) (ys : List ℕ) → IsAscending ys → IsAscending (btree_insert x ys)
unfolding btree_insert
btree_insert-IsAscending x [] h = tt
btree_insert-IsAscending x (y ∷ []) h = ground arith
btree_insert-IsAscending x (y ∷ z ∷ ys) h = ground (arith, btree_insert-IsAscending x (z ∷ ys) h.1)

collect_members-IsAscending :
    (o : ℕ) (ms set : List ℕ) → IsAscending set → IsAscending (collect_members o ms set)
unfolding collect_members
collect_members-IsAscending o [] set h = h
collect_members-IsAscending o (m ∷ ms) set h =
    collect_members-IsAscending o ms (if m == o then set else btree_insert m set)
      (ground (arith, btree_insert-IsAscending m set h))

contains-collect_members :
    (o k : ℕ) (ms set : List ℕ)
    → contains k (collect_members o ms set) ≡ (contains k set || (contains k ms && not (k == o)))
unfolding collect_members contains
contains-collect_members o k [] set = ground arith
contains-collect_members o k (m ∷ ms) set = ground (
  arith,
  contains-collect_members o k ms (if m == o then set else btree_insert m set),
  contains-btree_insert m k set,
)

members_collected :
    (owner : ℕ) (asked members : List ℕ)
    → normalize_member_ids owner asked ≡ ok members
    → (members ≡ collect_members owner asked []) × (length members ≤ 30)
unfolding normalize_member_ids
members_collected owner asked members h = go (collect_members owner asked []) h
  where
    go :
        (c : List ℕ)
        → (if is_empty c
            then ok []
            else if ltb 30 (length c)
            then err (validation (text "group member count must be at most 30"))
            else ok c)
          ≡ ok members
        → (members ≡ c) × (length members ≤ 30)
    go [] e = ground arith
    go (x ∷ c) e = ground arith

-- The members of a new group are accepted as at most 30 ids in ascending order, each once; an id is
-- among them exactly when it was asked for and is not the owner's.
pub member_ids_exact :
    (owner : ℕ) (asked members : List ℕ)
    → normalize_member_ids owner asked ≡ ok members
    → IsAscending members
      × (length members ≤ 30)
      × ((k : ℕ) → contains k members ≡ (contains k asked && not (k == owner)))
unfolding contains
member_ids_exact owner asked members h =
    let (e, short) = members_collected owner asked members h in
    (
      rw e (collect_members-IsAscending owner asked [] tt),
      short,
      λ k. rw e (contains-collect_members owner k asked []),
    )

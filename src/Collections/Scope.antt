-- ===== src/Collections/Scope.antt =====
-- A map from scopes (users, channels, threads) to sets of members, in which an empty set is dropped.
use sagiton.Prelude.{
  ℕ, ◌≡◌, ◌≢◌, refl, Bool, true, false, ◌&&◌, Option, none, some, List, [], ◌∷◌, arith, ◌==◌,
  if◌then◌else◌, suc, inl, inr, Bool-cases, Option-cases,
}
use sagiton.Collections.{
  HashMap, HashSet, get, remove, insert, contains, set_insert, set_remove, NoRepeats, get-remove,
  get-insert, contains-set_insert, contains-set_remove, set_insert-NoRepeats, set_remove-NoRepeats,
}

abbrev pub or_default : Option HashSet → HashSet
or_default none = []
or_default (some s) = s

-- `map.entry(key).or_default().insert(member)`
unfoldable pub join : (member key : ℕ) → HashMap HashSet → HashMap HashSet
join member key m = insert key (set_insert member (or_default (get key m))) m

abbrev pub put_or_drop : ℕ → HashSet → HashMap HashSet → HashMap HashSet
put_or_drop key [] m = remove key m
put_or_drop key (c ∷ s) m = insert key (c ∷ s) m

-- `if let Some(set) = map.get_mut(key) { set.remove(member); if set.is_empty() { map.remove(key); } }`
unfoldable pub leave : (member key : ℕ) → HashMap HashSet → HashMap HashSet
leave member key m = elim (get key m) [
  | none ↦ m
  | some s ↦ put_or_drop key (set_remove member s) m
]

-- The loop over the scopes of a connection that goes away.
unfoldable pub leave_all : (member : ℕ) → HashSet → HashMap HashSet → HashMap HashSet
unfolding leave
leave_all member [] m = m
leave_all member (key ∷ keys) m = leave_all member keys (leave member key m)

-- Whether `member` is in the scope `key`.
unfoldable pub has_member : (member key : ℕ) → HashMap HashSet → Bool
has_member member key m = contains member (or_default (get key m))

pub has_member-join :
    (c k d j : ℕ) (m : HashMap HashSet)
    → has_member d j (join c k m) ≡ (if c == d && k == j then true else has_member d j m)
unfolding has_member join
has_member-join c k d j m = ground (
  arith,
  get-insert k j (set_insert c (or_default (get k m))) m,
  contains-set_insert c d (or_default (get k m)),
)

has_member-put_or_drop :
    (k d j : ℕ) (s : HashSet) (m : HashMap HashSet)
    → has_member d j (put_or_drop k s m) ≡ (if k == j then contains d s else has_member d j m)
unfolding has_member contains
has_member-put_or_drop k d j [] m = ground (arith, get-remove k j m)
has_member-put_or_drop k d j (c ∷ s) m = ground (arith, get-insert k j (c ∷ s) m)

pub has_member-leave :
    (c k d j : ℕ) (m : HashMap HashSet)
    → has_member d j (leave c k m) ≡ (if c == d && k == j then false else has_member d j m)
unfolding leave has_member contains
has_member-leave c k d j m = ground (
  arith,
  has_member-put_or_drop k d j (set_remove c (or_default (get k m))) m,
  contains-set_remove c d (or_default (get k m)),
)

pub has_member-leave_all :
    (c d j : ℕ) (ks : HashSet) (m : HashMap HashSet)
    → has_member d j (leave_all c ks m)
      ≡ (if c == d && contains j ks then false else has_member d j m)
unfolding leave_all contains
has_member-leave_all c d j [] m = ground arith
has_member-leave_all c d j (k ∷ ks) m =
    ground (arith, has_member-leave_all c d j ks (leave c k m), has_member-leave c k d j m)

-- Every set in the map is without repetition and not empty.
abbrev pub IsTidy : HashMap HashSet → Type 0
IsTidy m = (k : ℕ) (s : HashSet) → get k m ≡ some s → NoRepeats s × (s ≢ [])

tidy_or_default : (k : ℕ) (m : HashMap HashSet) → IsTidy m → NoRepeats (or_default (get k m))
tidy_or_default k m t = elim (Option-cases (get k m)) [
  | inl e ↦ rw e tt
  | inr (s, e) ↦ rw e (t k s e).0
]

set_insert-ne-nil : (c : ℕ) (s : HashSet) → set_insert c s ≢ []
unfolding set_insert
set_insert-ne-nil c s = ground arith

pub join-IsTidy : (c k : ℕ) (m : HashMap HashSet) → IsTidy m → IsTidy (join c k m)
unfolding join
join-IsTidy c k m t j s e = elim (Bool-cases (k == j)) [
  | inl same ↦
      let found : set_insert c (or_default (get k m)) ≡ s =
        ground (arith, get-insert k j (set_insert c (or_default (get k m))) m) in
      rw (← found) (
        set_insert-NoRepeats c (or_default (get k m)) (tidy_or_default k m t),
        set_insert-ne-nil c (or_default (get k m)),
      )
  | inr other ↦ t j s (ground (arith, get-insert k j (set_insert c (or_default (get k m))) m))
]

put_or_drop-IsTidy :
    (k : ℕ) (r : HashSet) (m : HashMap HashSet)
    → NoRepeats r
    → IsTidy m
    → IsTidy (put_or_drop k r m)
put_or_drop-IsTidy k [] m h t j s e = t j s (ground (arith, get-remove k j m))
put_or_drop-IsTidy k (c ∷ r) m h t j s e = elim (Bool-cases (k == j)) [
  | inl same ↦
      let found : c ∷ r ≡ s = ground (arith, get-insert k j (c ∷ r) m) in
      rw (← found) (h, λ empty. cc)
  | inr other ↦ t j s (ground (arith, get-insert k j (c ∷ r) m))
]

pub leave-IsTidy : (c k : ℕ) (m : HashMap HashSet) → IsTidy m → IsTidy (leave c k m)
unfolding leave
leave-IsTidy c k m t = elim (Option-cases (get k m)) [
  | inl e ↦ rw (e, leave) t
  | inr (s, e) ↦
      rw (e, leave)
        (put_or_drop-IsTidy k (set_remove c s) m (set_remove-NoRepeats c s (t k s e).0) t)
]

pub leave_all-IsTidy :
    (c : ℕ) (ks : HashSet) (m : HashMap HashSet) → IsTidy m → IsTidy (leave_all c ks m)
unfolding leave_all
leave_all-IsTidy c [] m t = t
leave_all-IsTidy c (k ∷ ks) m t = leave_all-IsTidy c ks (leave c k m) (leave-IsTidy c k m t)

-- How often `c` stands in a list.
abbrev pub count : ℕ → List ℕ → ℕ
count c [] = 0
count c (d ∷ ds) = let rest = count c ds in if d == c then suc rest else rest

-- A set holds each of its members once.
pub count-contains :
    (c : ℕ) (s : HashSet) → NoRepeats s → count c s ≡ (if contains c s then 1 else 0)
unfolding contains
count-contains c [] h = refl
count-contains c (d ∷ s) h = ground (arith, count-contains c s h.1)

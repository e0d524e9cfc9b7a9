-- ===== src/Message/Rows.antt =====
-- The messages with a given id, of which those that are not deleted are changed; for the messages
-- of channels and for those of threads.
use sagiton.Prelude.{
  ℕ, ◌≡◌, refl, ap, true, false, ◌==◌, none, some, List, [], ◌∷◌, arith, Option-cases, inl, inr,
  ==_iff,
}
use sagiton.Database.Table.{
  find_where, exists_where, update_where, find_where-update_where, find_where-holds,
}
use sagiton.Schema.{MessageRecord}
use sagiton.Message.{is_live}

pub live_found :
    (id : ℕ) (m : MessageRecord) (rows : List MessageRecord)
    → find_where (λ r. r.id == id) rows ≡ some m
    → m.deleted_at ≡ none
    → find_where (is_live id) rows ≡ some m
live_found id m [] h k = absurd (ground arith)
live_found id m (r ∷ rows) h k = ground (arith, live_found id m rows)

pub found_changed :
    (id : ℕ) (set : MessageRecord → MessageRecord) (m : MessageRecord) (rows : List MessageRecord)
    → ((r : MessageRecord) → (set r).id ≡ r.id)
    → find_where (λ r. r.id == id) rows ≡ some m
    → m.deleted_at ≡ none
    → find_where (λ r. r.id == id) (update_where (is_live id) set rows) ≡ some (set m)
found_changed id set m rows keeps h k =
    let law =
      find_where-update_where (λ r. r.id == id) (is_live id) set
        (λ r e. ap (λ (n : ℕ). n == id) (keeps r)) rows in
    let same : (m.id == id) ≡ true =
      find_where-holds (λ (r : MessageRecord). r.id == id) rows m h in
    ground (arith, law, h, k, same)

pub others_kept :
    (id other : ℕ) (set : MessageRecord → MessageRecord) (rows : List MessageRecord)
    → ((r : MessageRecord) → (set r).id ≡ r.id)
    → (id == other) ≡ false
    → find_where (λ r. r.id == other) (update_where (is_live id) set rows)
      ≡ find_where (λ r. r.id == other) rows
others_kept id other set rows keeps d =
    let law =
      find_where-update_where (λ r. r.id == other) (is_live id) set
        (λ r e. ap (λ (n : ℕ). n == other) (keeps r)) rows in
    elim (Option-cases (find_where (λ (r : MessageRecord). r.id == other) rows)) [
      | inl e ↦ ground (arith, law)
      | inr (m, e) ↦
          (let same : (m.id == other) ≡ true =
              find_where-holds (λ (r : MessageRecord). r.id == other) rows m e in
            ground (arith, law, (==_iff m.id other).0 same, (==_iff m.id id).0))
    ]

pub none_live :
    (id now : ℕ) (rows : List MessageRecord)
    → exists_where
        (is_live id)
        (update_where (is_live id) (λ m. record m { deleted_at = some now }) rows)
      ≡ false
none_live id now [] = refl
none_live id now (m ∷ rows) = ground (arith, none_live id now rows)

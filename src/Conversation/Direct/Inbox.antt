-- ===== src/Conversation/Direct/Inbox.antt =====
-- The pending inbox of a user lists exactly the threads that the user can accept.
use sagiton.Prelude.{
  ℕ, ◌≡◌, ◌∙◌, refl, Bool, true, false, ◌==◌, ◌&&◌, ◌||◌, some, is_some, List, [], ◌∷◌, arith,
  Bool-cases, Option-cases, inl, inr, ==_iff,
}
use sagiton.Shared.{is_ok}
use sagiton.Database.Table.{
  find_where, exists_where, select_where, All, All-find_where, find_where-holds,
  exists_where-find_where, find_where-none_imp,
}
use sagiton.Schema.{Env, Db, ThreadRow, ThreadKind, direct, group, UserRecord}
use sagiton.Conversation.{put_latest, latest_first, is_direct, has_user}
use sagiton.Conversation.Direct.{
  is_received, list_pending_direct_inbox, accept_direct_thread, accept_direct_thread_request,
  accept_locked, require_receiver,
}
use sagiton.Conversation.Direct.Summary.{
  DirectThreadSummary, summarize, summarize_all, is_direct_of,
}
use sagiton.Conversation.Direct.Keys.{UniqueIds, IsKeyed, found_by_id}

-- Both users of a direct thread are there.
abbrev pub KnowsPair : Db → ThreadRow → Type 0
KnowsPair db t = (a b : ℕ) → t.kind ≡ direct a b → (has_user a db ≡ true) × (has_user b db ≡ true)

module _ (p : ThreadRow → Bool) where
  exists_put_latest :
      (t : ThreadRow) (rows : List ThreadRow)
      → exists_where p (put_latest t rows) ≡ (p t || exists_where p rows)
  exists_put_latest t [] = refl
  exists_put_latest t (x ∷ rows) = ground (arith, exists_put_latest t rows)

  exists_latest_first :
      (rows : List ThreadRow) → exists_where p (latest_first rows) ≡ exists_where p rows
  exists_latest_first [] = refl
  exists_latest_first (t ∷ rows) =
      ground (arith, exists_latest_first rows, exists_put_latest t (latest_first rows))

  exists_select_where :
      (q : ThreadRow → Bool) (rows : List ThreadRow)
      → exists_where p (select_where q rows) ≡ exists_where (λ t. q t && p t) rows
  exists_select_where q [] = refl
  exists_select_where q (t ∷ rows) = ground (arith, exists_select_where q rows)

  none_elsewhere :
      (n : ℕ) (rows : List ThreadRow)
      → ((r : ThreadRow) → p r ≡ true → r.id ≡ n)
      → exists_where (λ r. r.id == n) rows ≡ false
      → exists_where p rows ≡ false
  none_elsewhere n [] only h = refl
  none_elsewhere n (r ∷ rows) only h =
      ground (arith, only r, none_elsewhere n rows only, (==_iff r.id n).1)

  exists_unique :
      (q : ThreadRow → Bool) (rows : List ThreadRow) (t : ThreadRow)
      → ((r : ThreadRow) → p r ≡ true → r.id ≡ t.id)
      → UniqueIds rows
      → find_where q rows ≡ some t
      → exists_where p rows ≡ p t
  exists_unique q [] t only c h = absurd (ground arith)
  exists_unique q (r ∷ rows) t only c h = elim (Bool-cases (q r)) [
    | inl e ↦
        (let same : r ≡ t = ground arith in ground (arith, none_elsewhere t.id rows only, c.0))
    | inr e ↦
        (let found : find_where q rows ≡ some t = rw e at h in
          ground (
            arith,
            only r,
            exists_unique q rows t only c.1 found,
            found_by_id q rows t c.1 found,
            exists_where-find_where (λ (x : ThreadRow). x.id == t.id) rows,
            c.0,
          ))
  ]

module _ (u id : ℕ) (db : Db) where
  -- A row that the inbox shows under `id`.
  abbrev is_shown : ThreadRow → Bool
  unfolding summarize
  is_shown t = t.id == id && is_some (summarize u db t)

  summary_id : (t : ThreadRow) (s : DirectThreadSummary) → summarize u db t ≡ some s → s.id ≡ t.id
  unfolding summarize
  summary_id t s h = ground arith

  exists_summarize_all :
      (rows : List ThreadRow)
      → exists_where (λ s. s.id == id) (summarize_all u db rows) ≡ exists_where is_shown rows
  unfolding is_shown summarize_all
  exists_summarize_all [] = refl
  exists_summarize_all (t ∷ rows) = elim (Option-cases (summarize u db t)) [
    | inl e ↦ ground (arith, exists_summarize_all rows)
    | inr (s, e) ↦ ground (arith, exists_summarize_all rows, summary_id t s e)
  ]

  inbox_rows :
      exists_where (λ s. s.id == id) (list_pending_direct_inbox u db)
      ≡ exists_where (λ t. is_received u db t && is_shown t) db.threads
  unfolding list_pending_direct_inbox
  inbox_rows =
      exists_summarize_all (latest_first (select_where (is_received u db) db.threads))
      ∙ exists_latest_first is_shown (select_where (is_received u db) db.threads)
      ∙ exists_select_where is_shown (is_received u db) db.threads

  known_summary :
      (t : ThreadRow) → KnowsPair db t → is_direct t.kind ≡ true → is_some (summarize u db t) ≡ true
  unfolding summarize
  known_summary t k h = go t.kind refl
    where
      go : (kind : ThreadKind) → t.kind ≡ kind → is_some (summarize u db t) ≡ true
      go (direct a b) e =
          let known = k a b e in
          ground (
            arith,
            known,
            exists_where-find_where (λ (r : UserRecord). r.id == a) db.users,
            exists_where-find_where (λ (r : UserRecord). r.id == b) db.users,
          )
      go (group name owner_id) e = absurd (ground arith)

-- Where threads have distinct ids and direct threads known users, a thread is in the pending inbox of
-- a user exactly when the user's acceptance of it succeeds.
pub list_pending_direct_inbox-accept_direct_thread :
    (env : Env) (u id : ℕ) (db : Db)
    → IsKeyed db
    → All (KnowsPair db) db.threads
    → exists_where (λ s. s.id == id) (list_pending_direct_inbox u db)
      ≡ is_ok (accept_direct_thread env u id db).0
unfolding is_shown accept_direct_thread accept_direct_thread_request accept_locked require_receiver
list_pending_direct_inbox-accept_direct_thread env u id db c k =
    elim (Option-cases (find_where (is_direct_of id u db) db.threads)) [
      | inl e ↦
          (let none_received : exists_where (λ t. is_received u db t && is_shown u id db t)
                  db.threads
                ≡ false =
              (ground (
                arith,
                exists_where-find_where (λ t. is_received u db t && is_shown u id db t) db.threads,
                find_where-none_imp (is_direct_of id u db)
                    (λ t. is_received u db t && is_shown u id db t) (λ t h. ground arith) db.threads
                    e,
              )) in
            rw (inbox_rows u id db, none_received, e) refl)
      | inr (t, e) ↦
          (let test : ThreadRow → Bool = λ r. is_received u db r && is_shown u id db r in
            let held : is_direct_of id u db t ≡ true =
              find_where-holds (is_direct_of id u db) db.threads t e in
            let kind : is_direct t.kind ≡ true = ground arith in
            let known = All-find_where (KnowsPair db) (is_direct_of id u db) db.threads t k e in
            let only =
              exists_unique test (is_direct_of id u db) db.threads t
                (λ r h. ground (arith, (==_iff r.id id).0, (==_iff t.id id).0)) c.unique e in
            rw (inbox_rows u id db, only)
              (ground (arith, known_summary u id db t known kind, held, e)))
    ]

-- ===== src/Conversation/Direct/Outcomes.antt =====
-- What the calls on direct threads leave in the database: nothing new, or what they are for.
use sagiton.Prelude.{
  ℕ, ◌≡◌, ◌⊎◌, refl, Bool, true, false, ◌==◌, ◌&&◌, some, ◌∷◌, arith, Bool-cases, Option-cases, inl,
  inr,
}
use sagiton.Shared.{is_ok}
use sagiton.Database.Table.{find_where, exists_where, exists_where-find_where}
use sagiton.Schema.{Env, Db, ThreadRow}
use sagiton.Friendship.{
  sort_pair, is_direct_pair, is_pending_direct, accept_friend_request, insert_friends,
  activate_threads,
}
use sagiton.Friendship.Accept.{accept_outcome, accept_error, accept_friend_rows, marked}
use sagiton.Conversation.Direct.{
  lock_direct_thread_for_member, join_thread, new_direct_thread, insert_direct_thread,
  resolve_direct_thread, ensure_direct_membership, create_or_get_pair, create_or_get_direct_thread,
  create_direct_thread, activate_thread, delete_thread, require_receiver, accept_locked,
  accept_direct_thread_request, accept_direct_thread, reject_locked, reject_direct_thread_request,
  reject_direct_thread,
}
use sagiton.Conversation.Direct.Protocol.{Befriends, befriended}
use sagiton.Conversation.Direct.Summary.{direct_summary_for_member}

abbrev pub joined : ℕ → ℕ × ℕ → Db → Db
joined id p db = join_thread id p.1 (join_thread id p.0 db)

-- A new thread of the pair, or the one that is there; both users are members of it.
abbrev pub Created : Env → ℕ → ℕ × ℕ → Db → Db → Type 0
Created env u p db db' =
    ((friends : Bool) × (befriended db p ≡ friends)
      × (exists_where (λ t. t.id == env.new_v4 0) db.threads ≡ false)
      × (db'
          ≡ joined (env.new_v4 0) p
              (record db { threads = new_direct_thread env u p friends ∷ db.threads })))
    ⊎ ((t : ThreadRow) × (find_where (λ r. is_direct_pair p r.kind) db.threads ≡ some t)
        × (db' ≡ joined t.id p db))

summary_reads : (id u : ℕ) (s : Db) → (direct_summary_for_member id u s).1 ≡ s
unfolding direct_summary_for_member
summary_reads id u s = ground arith

create_pair_outcome :
    (env : Env) (u : ℕ) (p : ℕ × ℕ) (db : Db)
    → ((create_or_get_pair env u p db).1 ≡ db)
      ⊎ Created env u p db (create_or_get_pair env u p db).1
unfolding create_or_get_pair insert_direct_thread resolve_direct_thread ensure_direct_membership
create_pair_outcome env u p db = elim (Bool-cases (is_ok (create_or_get_pair env u p db).0)) [
  | inr h ↦ inl (ground arith)
  | inl h ↦ elim (Option-cases (find_where (λ r. is_direct_pair p r.kind) db.threads)) [
    | inr (t, e) ↦ inr (
        inr (
          t,
          e,
          ground (
            arith,
            exists_where-find_where (λ (r : ThreadRow). is_direct_pair p r.kind) db.threads,
            summary_reads t.id u (joined t.id p db),
          ),
        ))
    | inl e ↦
        (let friends = exists_where (λ r. r.user_id_a == p.0 && r.user_id_b == p.1) db.friends in
          inr (
            inl (
              friends,
              refl,
              ground (
                arith,
                exists_where-find_where (λ (r : ThreadRow). is_direct_pair p r.kind) db.threads,
              ),
              ground (
                arith,
                exists_where-find_where (λ (r : ThreadRow). is_direct_pair p r.kind) db.threads,
                summary_reads (env.new_v4 0) u (
                    joined (env.new_v4 0) p
                      (record db { threads = new_direct_thread env u p friends ∷ db.threads })),
              ),
            )))
  ]
]

pub create_outcome :
    (env : Env) (u peer : ℕ) (db : Db)
    → ((create_direct_thread env u peer db).1 ≡ db)
      ⊎ (((u == peer) ≡ false)
          × Created env u (sort_pair u peer) db (create_direct_thread env u peer db).1)
unfolding create_direct_thread create_or_get_direct_thread
create_outcome env u peer db = elim (Bool-cases (u == peer)) [
  | inl e ↦ inl (rw e refl)
  | inr e ↦ elim (create_pair_outcome env u (sort_pair u peer) db) [
    | inl same ↦ inl (rw e same)
    | inr made ↦ inr (e, rw e made)
  ]
]

-- The thread that a user answers to.
abbrev pub Answers : ℕ → ℕ → Db → ThreadRow → ℕ → Type 0
Answers u id db t requester =
    (lock_direct_thread_for_member id u db ≡ some t)
    × (is_pending_direct t.direct_status ≡ true)
    × (t.requested_by ≡ some requester)
    × ((requester == u) ≡ false)

module _ (env : Env) (u id : ℕ) (db : Db) where
  pub accept_direct_outcome :
      ((accept_direct_thread env u id db).1 ≡ db)
      ⊎ ((t : ThreadRow) × (requester : ℕ) × Answers u id db t requester
          × ((accept_direct_thread env u id db).1 ≡ activate_thread env.db_now t.id db))
  unfolding accept_direct_thread accept_direct_thread_request accept_locked require_receiver
  accept_direct_outcome = elim (Option-cases (lock_direct_thread_for_member id u db)) [
    | inl e ↦ inl (ground arith)
    | inr (t, e) ↦ elim (Option-cases t.requested_by) [
      | inl k ↦ inl (ground arith)
      | inr (r, k) ↦ elim (Bool-cases (r == u)) [
        | inl m ↦ inl (ground arith)
        | inr m ↦ elim (Bool-cases (is_pending_direct t.direct_status)) [
          | inl h ↦ inr (t, r, (e, h, k, m), ground arith)
          | inr h ↦ inl (ground arith)
        ]
      ]
    ]
  ]

module _ (u id : ℕ) (db : Db) where
  pub reject_direct_outcome :
      ((reject_direct_thread u id db).1 ≡ db)
      ⊎ ((t : ThreadRow) × (requester : ℕ) × Answers u id db t requester
          × ((reject_direct_thread u id db).1 ≡ delete_thread t.id db))
  unfolding reject_direct_thread reject_direct_thread_request reject_locked require_receiver
  reject_direct_outcome = elim (Option-cases (lock_direct_thread_for_member id u db)) [
    | inl e ↦ inl (ground arith)
    | inr (t, e) ↦ elim (Option-cases t.requested_by) [
      | inl k ↦ inl (ground arith)
      | inr (r, k) ↦ elim (Bool-cases (r == u)) [
        | inl m ↦ inl (ground arith)
        | inr m ↦ elim (Bool-cases (is_pending_direct t.direct_status)) [
          | inl h ↦ inr (t, r, (e, h, k, m), ground arith)
          | inr h ↦ inl (ground arith)
        ]
      ]
    ]
  ]

-- Accepting a friend request changes nothing, or makes the pair friends, and no others, and opens their
-- pending threads.
abbrev pub Opens : Env → ℕ × ℕ → Db → Db → Type 0
Opens env p db db' =
    (db' ≡ db)
    ⊎ ((db'.thread_members ≡ db.thread_members)
        × (db'.threads ≡ (activate_threads env p db).threads)
        × Befriends p (befriended db) (befriended db'))

after_threads :
    (env : Env) (user from : ℕ) (db : Db) (s : Db)
    → ((insert_friends env (sort_pair from user) s).1.threads ≡ s.threads)
      × ((insert_friends env (sort_pair from user) s).1.thread_members ≡ s.thread_members)
unfolding insert_friends
after_threads env user from db s = (ground arith, ground arith)

pub befriend_outcome :
    (env : Env) (user from : ℕ) (db : Db)
    → Opens env (sort_pair from user) db (accept_friend_request env user from db).1
befriend_outcome env user from db =
    elim (Bool-cases (is_ok (accept_friend_request env user from db).0)) [
      | inl h ↦
          (let done = accept_outcome env user from db h in
            let (r, found, left, inserted, wrote) = done in
            let kept = after_threads env user from db (marked env user from db r) in
            inr (
              ground (arith, kept.1, wrote),
              ground (arith, kept.0, wrote),
              λ q.
                  accept_friend_rows env user from db q (accept_friend_request env user from db)
                    done,
            ))
      | inr h ↦ inl (accept_error env user from db h)
    ]

-- ===== src/Conversation/Direct/Summary.antt =====
-- The summary of a direct thread, as a member of it sees it.
use sagiton.Prelude.{ℕ, Bool, ◌&&◌, Option, none, some, List, [], ◌∷◌, ◌==◌, if◌then◌else◌}
use sagiton.Text.{Text}
use sagiton.Shared.{text, internal}
use sagiton.Database.{Tx, gets, or_raise, ◌>>=◌}
use sagiton.Database.Table.{find_where}
use sagiton.Schema.{Db, DirectStatus, ThreadKind, direct, group, ThreadRow}
use sagiton.Conversation.{is_direct, is_thread_member, find_user, has_unread}

pub record DirectThreadSummary : Type 0 where
  pub id : ℕ
  pub peer_user_id : ℕ
  pub peer_username : Text
  pub status : DirectStatus
  pub requested_by : Option ℕ
  pub accepted_at : Option ℕ
  pub created_at : ℕ
  pub has_unread : Bool

-- CASE WHEN t.direct_a_user_id = user THEN t.direct_b_user_id ELSE t.direct_a_user_id END
abbrev pub peer_of : ℕ → ThreadKind → Option ℕ
peer_of u (direct a b) = some (if a == u then b else a)
peer_of u (group _ _) = none

-- The columns of a summary; the join with `users` drops a thread whose peer is not found.
unfoldable pub summarize : ℕ → Db → ThreadRow → Option DirectThreadSummary
unfolding has_unread
summarize u db t = elim (peer_of u t.kind) [
  | none ↦ none
  | some peer ↦ elim (find_user peer db) [
    | none ↦ none
    | some user ↦ some (record {
      id = t.id;
      peer_user_id = peer;
      peer_username = user.username;
      status = t.direct_status;
      requested_by = t.requested_by;
      accepted_at = t.accepted_at;
      created_at = t.created_at;
      has_unread = has_unread t.id u db;
    })
  ]
]

abbrev pub summarize_found : ℕ → Db → Option ThreadRow → Option DirectThreadSummary
unfolding summarize
summarize_found u db none = none
summarize_found u db (some t) = summarize u db t

unfoldable pub summarize_all : ℕ → Db → List ThreadRow → List DirectThreadSummary
unfolding summarize
summarize_all u db [] = []
summarize_all u db (t ∷ rows) =
    let rest = summarize_all u db rows in
    elim (summarize u db t) [ none ↦ rest | some s ↦ s ∷ rest ]

-- WHERE t.id = thread_id AND t.kind = 'DIRECT'
abbrev pub is_direct_at : ℕ → ThreadRow → Bool
is_direct_at thread_id t = t.id == thread_id && is_direct t.kind

-- The same, with the join on the membership of the user.
abbrev pub is_direct_of : (thread_id user_id : ℕ) → Db → ThreadRow → Bool
is_direct_of thread_id u db t = is_direct_at thread_id t && is_thread_member t.id u db

-- `direct_summary_for_member`; `fetch_one` raises where no row is found.
unfoldable pub direct_summary_for_member : (thread_id user_id : ℕ) → Tx Db DirectThreadSummary
direct_summary_for_member thread_id u = do
  found ← gets (λ db. summarize_found u db (find_where (is_direct_at thread_id) db.threads))
  or_raise found (internal (text "database error"))

-- `find_direct_thread_for_member`.
unfoldable pub find_direct_thread_for_member :
    (thread_id user_id : ℕ) → Db → Option DirectThreadSummary
find_direct_thread_for_member thread_id u db =
    summarize_found u db (find_where (is_direct_of thread_id u db) db.threads)

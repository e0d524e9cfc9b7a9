-- ===== src/Http/Effects/Handlers.antt =====
-- What the parts that the handlers are made of publish.
use sagiton.Prelude.{
  not, ℕ, ◌≡◌, ◌⊎◌, refl, Bool, true, false, ◌&&◌, ◌==◌, List, [], Bool-cases, inl, inr, ==_refl,
}
use sagiton.Shared.{AppResult, ok, err, is_ok}
use sagiton.Database.{Tx}
use sagiton.Database.Table.{All}
use sagiton.Schema.{Env, Db}
use sagiton.Session.{Topic, user}
use sagiton.Gateway.Protocol.{ServerEvent, thread_accepted}
use sagiton.Redis.Fanout.{is_routed}
use sagiton.Http.{
  Publication, Handler, Header, AppState, authenticated_user_id, handle_as, authenticated, limited,
  announced, announce, respond,
}
use sagiton.Conversation.Direct
use sagiton.Conversation.Direct.{
  DirectThreadUpsertResult, DirectThreadTransition, DirectInboxFilter,
}
use sagiton.Friendship.Lists
use sagiton.Friendship.Lists.{FriendRequestInboxFilter}
use sagiton.Friendship.{is_pending_direct}
use sagiton.Conversation.Message.{is_requester}
use sagiton.Http.Calls.{Outcome, seen}
use sagiton.Http.Conversations
use sagiton.Http.Accounts

-- A publication names in its event the scope it goes to, or it tells one of the two users of a direct
-- thread that the thread is accepted.
abbrev IsAccepted : Topic → ServerEvent → Type 0
IsAccepted (user u) (thread_accepted _ _ requester receiver) =
    ((requester == u) ≡ true) ⊎ ((receiver == u) ≡ true)
IsAccepted _ _ = ⊥

abbrev pub IsAnnounced : Publication → Type 0
unfolding is_routed
IsAnnounced p = (is_routed p.0 p.1 ≡ true) ⊎ IsAccepted p.0 p.1

-- What is published is in order; where the call is `strict`, nothing is on a failure.
unfoldable pub Tells : (strict : Bool) → Outcome → Type 0
unfolding IsAnnounced
Tells strict o = All IsAnnounced o.2 × (strict ≡ true → o.0 ≡ false → o.2 ≡ [])

-- The same, and a caller that is refused changes and publishes nothing.
unfoldable pub IsSound : (refused strict : Bool) → Db → Outcome → Type 0
unfolding Tells
IsSound refused strict db o = (refused ≡ true → o ≡ (false, db, [])) × Tells strict o

module _ {A : Type 0} where
  pub respond_quiet : (m : Tx Db A) (db : Db) → Tells true (seen (respond m db))
  unfolding respond announce Tells
  respond_quiet m db = go (m db)
    where
      go : (r : AppResult A × Db) → Tells true (seen (announced (λ _. []) r))
      go (ok a, s) = (tt, λ h k. refl)
      go (err e, s) = (tt, λ h k. refl)

  pub announce-Tells :
      (events : A → List Publication) (m : Tx Db A)
      → ((a : A) → All IsAnnounced (events a))
      → (db : Db) → Tells true (seen (announce events m db))
  unfolding announce Tells
  announce-Tells events m p db = go (m db)
    where
      go : (r : AppResult A × Db) → Tells true (seen (announced events r))
      go (ok a, s) = (p a, λ h k. absurd (cc))
      go (err e, s) = (tt, λ h k. refl)

  pub limited-Tells :
      (allowed : Bool) (handler : Handler A)
      → ((db : Db) → Tells true (seen (handler db)))
      → (db : Db) → Tells true (seen (limited allowed handler db))
  unfolding limited Tells
  limited-Tells true handler p db = p db
  limited-Tells false handler p db = (tt, λ h k. refl)

  pub authenticated-IsSound :
      (strict : Bool) (state : AppState) (header : Header) (handler : ℕ → Handler A)
      → ((u : ℕ) (db : Db) → Tells strict (seen (handler u db)))
      → (db : Db)
      → IsSound
          (not (is_ok (authenticated_user_id state header)))
          strict
          db
          (seen (authenticated state header handler db))
  unfolding authenticated IsSound
  authenticated-IsSound strict state header handler p db = go (authenticated_user_id state header)
    where
      go : (r : AppResult ℕ) → IsSound (not (is_ok r)) strict db (seen (handle_as handler r db))
      go (ok u) = (λ h. absurd (cc), p u db)
      go (err e) = (λ h. refl, (tt, λ h k. refl))

pub requested_routed :
    (u : ℕ) (r : DirectThreadUpsertResult) → All IsAnnounced (Conversations.requested_events u r)
unfolding Conversations.requested_events IsAnnounced is_routed
requested_routed u r =
    elim (Bool-cases
      (r.created && (is_pending_direct r.thread.status && is_requester u r.thread.requested_by))) [
        | inl e ↦ rw e (inl (==_refl r.thread.peer_user_id), tt)
        | inr e ↦ rw e tt
      ]

pub listed_quiet :
    (u : ℕ) (r : AppResult DirectInboxFilter) (db : Db)
    → Tells true (seen (Conversations.listed u r db))
unfolding Tells
listed_quiet u (ok filter) db = respond_quiet (Direct.list_direct_threads u filter) db
listed_quiet u (err e) db = (tt, λ h k. refl)

pub friends_quiet :
    (u : ℕ) (r : AppResult FriendRequestInboxFilter) (db : Db)
    → Tells true (seen (Accounts.listed u r db))
unfolding Tells
friends_quiet u (ok filter) db = respond_quiet (Lists.list_friend_requests u filter) db
friends_quiet u (err e) db = (tt, λ h k. refl)

pub accept-Tells :
    (env : Env) (id u : ℕ) (db : Db)
    → Tells false (seen (Conversations.then_get u id (Direct.accept_direct_thread env u id db)))
unfolding Tells IsAnnounced Conversations.then_get Conversations.accepted_events
accept-Tells env id u db = go (Direct.accept_direct_thread env u id db)
  where
    go :
        (r : AppResult DirectThreadTransition × Db)
        → Tells false (seen (Conversations.then_get u id r))
    go (ok t, s) = (
      (inr (inl (==_refl t.requester_user_id)), (inr (inr (==_refl t.receiver_user_id)), tt)),
      λ h. absurd (cc),
    )
    go (err e, s) = (tt, λ h k. refl)

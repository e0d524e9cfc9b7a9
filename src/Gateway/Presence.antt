-- ===== src/Gateway/Presence.antt =====
-- Presence: a user goes online with the first of his connections and offline with the last.
use mathlib.Core.Bool.{false≢true}
use sagiton.Prelude.{
  ℕ, ◌≡◌, refl, sym, ap, ◌∙◌, ==_refl, Bool, true, false, not, ◌||◌, none, some, [], ◌∷◌, arith,
  ◌==◌, inl, inr, Option-cases, Bool-cases,
}
use sagiton.Collections.{
  HashMap, HashSet, get, insert, contains, set_insert, set_remove, UniqueKeys, get-insert,
  get-remove,
}
use sagiton.Collections.Scope.{join, leave, put_or_drop, has_member, or_default}
use sagiton.Gateway.{ConnectionState, HubState, register, unregister, drops_user, has_length_one}
use sagiton.Gateway.Wiring.{IsWired, owned_by, unregister-IsWired}

-- Some connection of the hub belongs to the user.
abbrev pub online : ℕ → HashMap ConnectionState → Bool
online u [] = false
online u ((_, conn) ∷ m) = conn.user_id == u || online u m

abbrev is_nil : HashSet → Bool
is_nil [] = true
is_nil (_ ∷ _) = false

online_of_owned :
    (u c : ℕ) (m : HashMap ConnectionState) → owned_by u (get c m) ≡ true → online u m ≡ true
unfolding get
online_of_owned u c [] h = cc
online_of_owned u c ((d, conn) ∷ m) h = ground (arith, online_of_owned u c m)

-- A user who is online has a connection that is found.
owned_of_online :
    (u : ℕ) (m : HashMap ConnectionState)
    → UniqueKeys m
    → online u m ≡ true
    → (c : ℕ) × (owned_by u (get c m) ≡ true)
unfolding get
owned_of_online u [] k h = absurd (false≢true h)
owned_of_online u ((c, conn) ∷ m) k h = elim (Bool-cases (conn.user_id == u)) [
  | inl mine ↦ (c, ground arith)
  | inr other ↦ let (d, owned) = owned_of_online u m k.1 (ground arith) in (d, ground arith)
]

module _ (u : ℕ) (hub : HubState) (w : IsWired hub) where
  index_go :
      (s : HashSet)
      → or_default (get u hub.user_connections) ≡ s
      → online u hub.connections ≡ not (is_nil s)
  unfolding has_member contains
  index_go [] e = elim (Bool-cases (online u hub.connections)) [
    | inl up ↦
        let (c, owned) = owned_of_online u hub.connections w.unique up in
        absurd (false≢true (sym (ap (contains c) e) ∙ w.users c u ∙ owned))
    | inr down ↦ down
  ]
  index_go (c ∷ s) e =
      online_of_owned u c hub.connections (sym (w.users c u) ∙ ap (contains c) e ∙ rw (==_refl c))

  -- The hub's index tells who is online.
  online_index : online u hub.connections ≡ not (is_nil (or_default (get u hub.user_connections)))
  online_index = index_go (or_default (get u hub.user_connections)) refl

length_one_insert :
    (c : ℕ) (s : HashSet) → contains c s ≡ false → has_length_one (set_insert c s) ≡ is_nil s
unfolding set_insert
length_one_insert c s h = ground arith

register_first :
    (c now u : ℕ) (hub : HubState)
    → IsWired hub
    → get c hub.connections ≡ none
    → (register c now u hub).1.first_connection ≡ not (online u hub.connections)
unfolding register join has_member
register_first c now u hub w fresh = ground (
  arith,
  online_index u hub w,
  get-insert u u (set_insert c (or_default (get u hub.user_connections))) hub.user_connections,
  length_one_insert c (or_default (get u hub.user_connections)),
  w.users c u,
)

register-online :
    (c now u : ℕ) (hub : HubState) → online u (register c now u hub).0.connections ≡ true
unfolding register insert
register-online c now u hub = ground arith

-- A connection that is registered under a fresh id is reported as the first one of its user exactly
-- when he had none, and then he is online.
pub register_presence :
    (c now u : ℕ) (hub : HubState)
    → IsWired hub
    → get c hub.connections ≡ none
    → ((register c now u hub).1.first_connection ≡ not (online u hub.connections))
      × (online u (register c now u hub).0.connections ≡ true)
register_presence c now u hub w fresh =
    (register_first c now u hub w fresh, register-online c now u hub)

or_default-put_or_drop :
    (u : ℕ) (r : HashSet) (m : HashMap HashSet) → or_default (get u (put_or_drop u r m)) ≡ r
or_default-put_or_drop u [] m = ground (arith, get-remove u u m)
or_default-put_or_drop u (d ∷ r) m = ground (arith, get-insert u u (d ∷ r) m)

drops_user_lem :
    (c u : ℕ) (m : HashMap HashSet) (s : HashSet)
    → get u m ≡ some s
    → drops_user c (get u m) ≡ is_nil (or_default (get u (leave c u m)))
unfolding leave
drops_user_lem c u m s e =
    rw (e, leave) (ground (arith, or_default-put_or_drop u (set_remove c s) m))

user_set_found :
    (c : ℕ) (hub : HubState) (conn : ConnectionState)
    → IsWired hub
    → get c hub.connections ≡ some conn
    → (s : HashSet) × (get conn.user_id hub.user_connections ≡ some s)
unfolding has_member contains
user_set_found c hub conn w found = elim (Option-cases (get conn.user_id hub.user_connections)) [
  | inl absent ↦ absurd (ground (arith, w.users c conn.user_id))
  | inr (s, e) ↦ (s, e)
]

unregister_result :
    (c : ℕ) (hub : HubState) (conn : ConnectionState) (s : HashSet)
    → get c hub.connections ≡ some conn
    → get conn.user_id hub.user_connections ≡ some s
    → (unregister c hub).1
      ≡ some (record {
        user_id = conn.user_id;
        became_offline =
            not
              (not (is_nil (or_default (get conn.user_id (unregister c hub).0.user_connections))));
      })
unfolding unregister
unregister_result c hub conn s found e =
    ground (arith, drops_user_lem c conn.user_id hub.user_connections s)

-- A connection that goes away takes its user offline exactly when he has no other one.
pub unregister_presence :
    (c : ℕ) (hub : HubState) (conn : ConnectionState)
    → IsWired hub
    → get c hub.connections ≡ some conn
    → (unregister c hub).1
      ≡ some (record {
        user_id = conn.user_id;
        became_offline = not (online conn.user_id (unregister c hub).0.connections);
      })
unregister_presence c hub conn w found =
    let (s, e) = user_set_found c hub conn w found in
    rw (online_index conn.user_id (unregister c hub).0 (unregister-IsWired c hub w))
      (unregister_result c hub conn s found e)

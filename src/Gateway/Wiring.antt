-- ===== src/Gateway/Wiring.antt =====
-- The hub keeps its indices in step: the sets by user, by channel and by thread say exactly what the
-- connections say.
use sagiton.Prelude.{
  ℕ, ◌≡◌, ◌≢◌, refl, Bool, false, Option, none, some, [], ◌∷◌, arith, ◌==◌, if◌then◌else◌, inl, inr,
  Option-cases,
}
use sagiton.Collections.{
  HashMap, get, contains, set_insert, set_remove, get-remove, get-insert, contains-set_insert,
  contains-set_remove, UniqueKeys, remove-UniqueKeys, insert-UniqueKeys,
}
use sagiton.Collections.Scope.{
  has_member, IsTidy, has_member-join, has_member-leave, has_member-leave_all, join-IsTidy,
  leave-IsTidy, leave_all-IsTidy,
}
use sagiton.Gateway.{
  ConnectionState, HubState, register, unregister, subscribe_channel, unsubscribe_channel,
  subscribe_thread, unsubscribe_thread, touch_heartbeat, update_connection, new_hub,
  unregister_found,
}

abbrev pub owned_by : ℕ → Option ConnectionState → Bool
owned_by u none = false
owned_by u (some conn) = conn.user_id == u

abbrev pub in_channel : ℕ → Option ConnectionState → Bool
in_channel k none = false
in_channel k (some conn) = contains k conn.subscribed_channels

abbrev pub in_thread : ℕ → Option ConnectionState → Bool
in_thread k none = false
in_thread k (some conn) = contains k conn.subscribed_threads

pub record IsWired (hub : HubState) : Type 0 where
  pub unique : UniqueKeys hub.connections
  pub tidy_users : IsTidy hub.user_connections
  pub tidy_channels : IsTidy hub.channel_subscribers
  pub tidy_threads : IsTidy hub.thread_subscribers
  pub users : (c u : ℕ) → has_member c u hub.user_connections ≡ owned_by u (get c hub.connections)
  pub channels :
      (c k : ℕ) → has_member c k hub.channel_subscribers ≡ in_channel k (get c hub.connections)
  pub threads :
      (c k : ℕ) → has_member c k hub.thread_subscribers ≡ in_thread k (get c hub.connections)

pub get-update_connection :
    (c d : ℕ) (f : ConnectionState → ConnectionState) (m : HashMap ConnectionState)
    → get d (update_connection c f m)
      ≡ (if c == d then elim (get d m) [ none ↦ none | some conn ↦ some (f conn) ] else get d m)
unfolding get update_connection
get-update_connection c d f [] = ground arith
get-update_connection c d f ((e, conn) ∷ m) = ground (arith, get-update_connection c d f m)

update_connection-UniqueKeys :
    (c : ℕ) (f : ConnectionState → ConnectionState) (m : HashMap ConnectionState)
    → UniqueKeys m
    → UniqueKeys (update_connection c f m)
unfolding update_connection
update_connection-UniqueKeys c f [] u = tt
update_connection-UniqueKeys c f ((e, conn) ∷ m) u =
    ground (arith, update_connection-UniqueKeys c f m u.1, get-update_connection c e f m)

pub register-IsWired :
    (c now u : ℕ) (hub : HubState)
    → get c hub.connections ≡ none
    → IsWired hub
    → IsWired (register c now u hub).0
unfolding register contains
register-IsWired c now u hub fresh w =
    let conn : ConnectionState = record {
      user_id = u;
      subscribed_channels = [];
      subscribed_threads = [];
      last_heartbeat = now;
    } in
    record {
      unique = insert-UniqueKeys c conn hub.connections w.unique;
      tidy_users = join-IsTidy c u hub.user_connections w.tidy_users;
      tidy_channels = w.tidy_channels;
      tidy_threads = w.tidy_threads;
      users = λ d v. ground (
        arith,
        get-insert c d conn hub.connections,
        has_member-join c u d v hub.user_connections,
        w.users d v,
      );
      channels = λ d k. ground (arith, get-insert c d conn hub.connections, w.channels d k);
      threads = λ d k. ground (arith, get-insert c d conn hub.connections, w.threads d k);
    }

unregister_found-IsWired :
    (c : ℕ) (conn : ConnectionState) (hub : HubState)
    → get c hub.connections ≡ some conn
    → IsWired hub
    → IsWired (unregister_found c conn hub).0
unfolding unregister_found
unregister_found-IsWired c conn hub found w = record {
  unique = remove-UniqueKeys c hub.connections w.unique;
  tidy_users = leave-IsTidy c conn.user_id hub.user_connections w.tidy_users;
  tidy_channels =
      leave_all-IsTidy c conn.subscribed_channels hub.channel_subscribers w.tidy_channels;
  tidy_threads = leave_all-IsTidy c conn.subscribed_threads hub.thread_subscribers w.tidy_threads;
  users = λ d v. ground (
    arith,
    get-remove c d hub.connections,
    has_member-leave c conn.user_id d v hub.user_connections,
    w.users d v,
  );
  channels = λ d k. ground (
    arith,
    get-remove c d hub.connections,
    has_member-leave_all c d k conn.subscribed_channels hub.channel_subscribers,
    w.channels d k,
  );
  threads = λ d k. ground (
    arith,
    get-remove c d hub.connections,
    has_member-leave_all c d k conn.subscribed_threads hub.thread_subscribers,
    w.threads d k,
  );
}

pub unregister-IsWired : (c : ℕ) (hub : HubState) → IsWired hub → IsWired (unregister c hub).0
unfolding unregister
unregister-IsWired c hub w = elim (Option-cases (get c hub.connections)) [
  | inl absent ↦ rw (absent, unregister) w
  | inr (conn, found) ↦ rw (found, unregister) (unregister_found-IsWired c conn hub found w)
]

-- A write to one connection that keeps its owner and its threads.
module _ (c k : ℕ) (hub : HubState) (w : IsWired hub) where
  pub subscribe_channel-IsWired : get c hub.connections ≢ none → IsWired (subscribe_channel c k hub)
  unfolding subscribe_channel
  subscribe_channel-IsWired known =
      let f = λ (conn : ConnectionState). record conn {
        subscribed_channels = set_insert k conn.subscribed_channels;
      } in
      record {
        unique = update_connection-UniqueKeys c f hub.connections w.unique;
        tidy_users = w.tidy_users;
        tidy_channels = join-IsTidy c k hub.channel_subscribers w.tidy_channels;
        tidy_threads = w.tidy_threads;
        users = λ d v. ground (arith, get-update_connection c d f hub.connections, w.users d v);
        channels = λ d j. grind (
          arith,
          get-update_connection c d f hub.connections,
          has_member-join c k d j hub.channel_subscribers,
          contains-set_insert,
          w.channels d j,
        );
        threads = λ d v. ground (arith, get-update_connection c d f hub.connections, w.threads d v);
      }

  pub unsubscribe_channel-IsWired : IsWired (unsubscribe_channel c k hub)
  unfolding unsubscribe_channel
  unsubscribe_channel-IsWired =
      let f = λ (conn : ConnectionState). record conn {
        subscribed_channels = set_remove k conn.subscribed_channels;
      } in
      record {
        unique = update_connection-UniqueKeys c f hub.connections w.unique;
        tidy_users = w.tidy_users;
        tidy_channels = leave-IsTidy c k hub.channel_subscribers w.tidy_channels;
        tidy_threads = w.tidy_threads;
        users = λ d v. ground (arith, get-update_connection c d f hub.connections, w.users d v);
        channels = λ d j. grind (
          arith,
          get-update_connection c d f hub.connections,
          has_member-leave c k d j hub.channel_subscribers,
          contains-set_remove,
          w.channels d j,
        );
        threads = λ d v. ground (arith, get-update_connection c d f hub.connections, w.threads d v);
      }

  pub subscribe_thread-IsWired : get c hub.connections ≢ none → IsWired (subscribe_thread c k hub)
  unfolding subscribe_thread
  subscribe_thread-IsWired known =
      let f = λ (conn : ConnectionState). record conn {
        subscribed_threads = set_insert k conn.subscribed_threads;
      } in
      record {
        unique = update_connection-UniqueKeys c f hub.connections w.unique;
        tidy_users = w.tidy_users;
        tidy_channels = w.tidy_channels;
        tidy_threads = join-IsTidy c k hub.thread_subscribers w.tidy_threads;
        users = λ d v. ground (arith, get-update_connection c d f hub.connections, w.users d v);
        channels =
            λ d v. ground (arith, get-update_connection c d f hub.connections, w.channels d v);
        threads = λ d j. grind (
          arith,
          get-update_connection c d f hub.connections,
          has_member-join c k d j hub.thread_subscribers,
          contains-set_insert,
          w.threads d j,
        );
      }

  pub unsubscribe_thread-IsWired : IsWired (unsubscribe_thread c k hub)
  unfolding unsubscribe_thread
  unsubscribe_thread-IsWired =
      let f = λ (conn : ConnectionState). record conn {
        subscribed_threads = set_remove k conn.subscribed_threads;
      } in
      record {
        unique = update_connection-UniqueKeys c f hub.connections w.unique;
        tidy_users = w.tidy_users;
        tidy_channels = w.tidy_channels;
        tidy_threads = leave-IsTidy c k hub.thread_subscribers w.tidy_threads;
        users = λ d v. ground (arith, get-update_connection c d f hub.connections, w.users d v);
        channels =
            λ d v. ground (arith, get-update_connection c d f hub.connections, w.channels d v);
        threads = λ d j. grind (
          arith,
          get-update_connection c d f hub.connections,
          has_member-leave c k d j hub.thread_subscribers,
          contains-set_remove,
          w.threads d j,
        );
      }

  pub touch_heartbeat-IsWired : IsWired (touch_heartbeat c k hub)
  unfolding touch_heartbeat
  touch_heartbeat-IsWired =
      let f = λ (conn : ConnectionState). record conn { last_heartbeat = k } in
      record {
        unique = update_connection-UniqueKeys c f hub.connections w.unique;
        tidy_users = w.tidy_users;
        tidy_channels = w.tidy_channels;
        tidy_threads = w.tidy_threads;
        users = λ d v. ground (arith, get-update_connection c d f hub.connections, w.users d v);
        channels =
            λ d v. ground (arith, get-update_connection c d f hub.connections, w.channels d v);
        threads = λ d v. ground (arith, get-update_connection c d f hub.connections, w.threads d v);
      }

pub new_hub-IsWired : IsWired new_hub
unfolding get has_member contains
new_hub-IsWired = record {
  unique = tt;
  tidy_users = λ k s e. absurd (cc);
  tidy_channels = λ k s e. absurd (cc);
  tidy_threads = λ k s e. absurd (cc);
  users = λ c u. refl;
  channels = λ c u. refl;
  threads = λ c u. refl;
}

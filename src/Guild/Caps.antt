-- ===== src/Guild/Caps.antt =====
-- The uses of guild invites are never more than their limit.
use sagiton.Prelude.{
  ℕ, ◌+◌, ◌≡◌, refl, ◌∙◌, false, Option, none, arith, Bool-cases, Option-cases, inl, inr, ap,
}
use sagiton.Prelude.Int.{ℤ}
use sagiton.Shared.{AppResult, ok, err}
use sagiton.Database.Table.{exists_where}
use sagiton.Schema.{Env, Db, InviteRow}
use sagiton.Text.{Text, trim, text_eq, is_empty}
use sagiton.Database.{continue}
use sagiton.Validation.{validate_max_uses, normalize_invite_expiry}
use sagiton.Invite.{IsCapped, counted-IsCapped, unused-IsCapped}
use sagiton.Guild.{
  cap_of, member_exists, GuildInviteJoinResult, create_guild, join_guild, leave_guild,
  create_channel, create_guild_invite, join_guild_via_invite, join_guild_invite, insert_guild,
  create_default_role, attach_default_role_to_member, default_role_id, repo_create_guild,
  add_member, remove_member, repo_create_channel, get_guild, repo_create_guild_invite,
  find_guild_for_member,
}
use sagiton.Guild.Steps.{
  Step, Reach, create_guild_step, join_guild_step, leave_guild_step, create_channel_step,
  create_guild_invite_step, join_guild_invite_step, start, next,
}
use sagiton.Guild.Invites.{
  HasUsesLeft-unused, has_joined, join_guild_via_invite_joined, join_guild_via_invite_not_joined,
}

create_guild_invites :
    (env : Env) (u : ℕ) (name : Text) (db : Db)
    → (create_guild env u name db).1.guild_invites ≡ db.guild_invites
unfolding create_guild repo_create_guild insert_guild create_default_role
    attach_default_role_to_member
create_guild_invites env u name db = ground arith

join_guild_invites : (u g : ℕ) (db : Db) → (join_guild u g db).1.guild_invites ≡ db.guild_invites
unfolding join_guild add_member default_role_id attach_default_role_to_member
join_guild_invites u g db = ground arith

leave_guild_invites : (u g : ℕ) (db : Db) → (leave_guild u g db).1.guild_invites ≡ db.guild_invites
unfolding leave_guild remove_member
leave_guild_invites u g db = ground arith

create_channel_invites :
    (env : Env) (u g : ℕ) (name : Text) (db : Db)
    → (create_channel env u g name db).1.guild_invites ≡ db.guild_invites
unfolding create_channel get_guild repo_create_channel
create_channel_invites env u g name db = ground arith

repo_create_guild_invite-IsCapped :
    (env : Env) (g u : ℕ) (token : Text) (expires : ℕ) (cap : Option ℕ) (db : Db)
    → IsCapped db.guild_invites
    → IsCapped (repo_create_guild_invite env g u token expires cap db).1.guild_invites
unfolding repo_create_guild_invite
repo_create_guild_invite-IsCapped env g u token expires cap db c =
    let invite : InviteRow = record {
      token = token;
      scope_id = g;
      created_by = u;
      expires_at = expires;
      max_uses = cap;
      used_count = 0;
      revoked_at = none;
      created_at = env.db_now;
    } in
    elim (Bool-cases (member_exists g u db)) [
      | inr e ↦ rw e c
      | inl e ↦ elim (Bool-cases (exists_where (λ i. text_eq i.token token) db.guild_invites)) [
        | inl k ↦ rw (e, k) c
        | inr k ↦ rw (e, k) (unused-IsCapped db.guild_invites invite refl c)
      ]
    ]

join_guild_via_invite-IsCapped :
    (env : Env) (token : Text) (u : ℕ) (db : Db)
    → IsCapped db.guild_invites
    → IsCapped (join_guild_via_invite env token u db).1.guild_invites
join_guild_via_invite-IsCapped env token u db c = go (join_guild_via_invite env token u db).0 refl
  where
    unchanged :
        has_joined (join_guild_via_invite env token u db).0 ≡ false
        → IsCapped (join_guild_via_invite env token u db).1.guild_invites
    unchanged h = rw (join_guild_via_invite_not_joined env token u db h) c

    go :
        (o : AppResult GuildInviteJoinResult)
        → (join_guild_via_invite env token u db).0 ≡ o
        → IsCapped (join_guild_via_invite env token u db).1.guild_invites
    go (err e) h = unchanged (ap has_joined h)
    go (ok r) h = elim (Bool-cases r.joined) [
      | inr k ↦ unchanged (ap has_joined h ∙ k)
      | inl k ↦
          (let j = join_guild_via_invite_joined env token u db r h k in
            rw (j.8)
              (counted-IsCapped token db.guild_invites j.0 j.1 (HasUsesLeft-unused j.0 j.4) c))
    ]

create_guild_invite-IsCapped :
    (env : Env) (token : Text) (u g : ℕ) (expires : Option ℕ) (max_uses : Option ℤ) (db : Db)
    → IsCapped db.guild_invites
    → IsCapped (create_guild_invite env token u g expires max_uses db).1.guild_invites
unfolding create_guild_invite get_guild
create_guild_invite-IsCapped env token u g expires max_uses db c =
    elim (Option-cases (find_guild_for_member g u db)) [
      | inl e ↦ rw e c
      | inr (guild, e) ↦ rw e (go (validate_max_uses max_uses))
    ]
  where
    go :
        (o : AppResult Unit)
        → IsCapped
            (continue
              (λ t.
                repo_create_guild_invite env g u token
                  (env.now_utc + normalize_invite_expiry expires)
                  (cap_of max_uses))
              (o, db)).1.guild_invites
    go (err e) = c
    go (ok t) = repo_create_guild_invite-IsCapped env g u token _ _ db c

join_guild_invite-IsCapped :
    (env : Env) (u : ℕ) (token : Text) (db : Db)
    → IsCapped db.guild_invites
    → IsCapped (join_guild_invite env u token db).1.guild_invites
unfolding join_guild_invite
join_guild_invite-IsCapped env u token db c = elim (Bool-cases (is_empty (trim token))) [
  | inl e ↦ rw e c
  | inr e ↦ rw e (join_guild_via_invite-IsCapped env (trim token) u db c)
]

Step-IsCapped : {t u : Db} → Step t u → IsCapped t.guild_invites → IsCapped u.guild_invites
Step-IsCapped (create_guild_step env u name db) c = rw (create_guild_invites env u name db) c
Step-IsCapped (join_guild_step u g db) c = rw (join_guild_invites u g db) c
Step-IsCapped (leave_guild_step u g db) c = rw (leave_guild_invites u g db) c
Step-IsCapped (create_channel_step env u g name db) c =
    rw (create_channel_invites env u g name db) c
Step-IsCapped (create_guild_invite_step env token u g expires max_uses db) c =
    create_guild_invite-IsCapped env token u g expires max_uses db c
Step-IsCapped (join_guild_invite_step env u token db) c =
    join_guild_invite-IsCapped env u token db c

-- If no guild invite has been used more often than its limit allows, none has after any sequence of
-- calls that create guilds, channels and invites, join by id or by invite, and leave.
pub Reach-IsCapped : {s t : Db} → IsCapped s.guild_invites → Reach s t → IsCapped t.guild_invites
Reach-IsCapped c start = c
Reach-IsCapped c (next r st) = Step-IsCapped st (Reach-IsCapped c r)

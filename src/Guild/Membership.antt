-- ===== src/Guild/Membership.antt =====
-- Who is a member of a guild.
use sagiton.Prelude.{
  ℕ, ◌≡◌, refl, true, false, Option, none, some, List, [], ◌∷◌, arith, Bool-cases, ==_refl, ==_iff,
  Option-cases, inl, inr, ◌&&◌, ◌==◌,
}
use sagiton.Prelude.Int.{ℤ}
use sagiton.Shared.{is_ok}
use sagiton.Database.{roll_back}
use sagiton.Database.Table.{find_where, exists_where, delete_where}
use sagiton.Schema.{Env, Db, InviteRow, GuildSummary, MemberRow}
use sagiton.Text.{Text, trim}
use sagiton.Guild.{
  is_member, member_exists, find_guild, find_invite, create_guild, join_guild, leave_guild,
  create_channel, create_guild_invite, join_guild_via_invite, join_guild_invite, join_guild_row,
  join_guild_found, insert_guild, create_default_role, attach_default_role_to_member,
  default_role_id, repo_create_guild, add_member, remove_member, repo_create_channel, get_guild,
  repo_create_guild_invite, is_guild_owner,
}
use sagiton.Guild.Steps.{
  Step, Reach, create_guild_step, join_guild_step, leave_guild_step, create_channel_step,
  create_guild_invite_step, join_guild_invite_step, start, next,
}

-- The owner of every guild is one of its members.
abbrev pub IsOwned : Db → Type 0
IsOwned db =
    (g : ℕ) (guild : GuildSummary)
    → find_guild g db ≡ some guild
    → member_exists g guild.owner_id db ≡ true

-- The guilds stay as they are, and no member leaves.
abbrev Keeps : Db → Db → Type 0
Keeps db db' =
    (db'.guilds ≡ db.guilds)
    × ((g u : ℕ) → member_exists g u db ≡ true → member_exists g u db' ≡ true)

Keeps-IsOwned : (db db' : Db) → Keeps db db' → IsOwned db → IsOwned db'
Keeps-IsOwned db db' k c g guild e = k.1 g guild.owner_id (c g guild (ground (arith, k.0)))

join_guild-Keeps : (u g : ℕ) (db : Db) → Keeps db (join_guild u g db).1
unfolding join_guild add_member default_role_id attach_default_role_to_member
join_guild-Keeps u g db = (ground arith, λ x y h. ground arith)

create_channel-Keeps :
    (env : Env) (u g : ℕ) (name : Text) (db : Db) → Keeps db (create_channel env u g name db).1
unfolding create_channel get_guild repo_create_channel
create_channel-Keeps env u g name db = (ground arith, λ x y h. ground arith)

create_guild_invite-Keeps :
    (env : Env) (token : Text) (u g : ℕ) (expires : Option ℕ) (max_uses : Option ℤ) (db : Db)
    → Keeps db (create_guild_invite env token u g expires max_uses db).1
unfolding create_guild_invite get_guild repo_create_guild_invite
create_guild_invite-Keeps env token u g expires max_uses db = (ground arith, λ x y h. ground arith)

found-Keeps :
    (env : Env) (token : Text) (u : ℕ) (invite : InviteRow) (guild : GuildSummary) (db : Db)
    → Keeps db (roll_back db (join_guild_found env token u invite guild db)).1
unfolding join_guild_found default_role_id attach_default_role_to_member
found-Keeps env token u invite guild db = (ground arith, λ x y h. ground arith)

row-Keeps :
    (env : Env) (token : Text) (u : ℕ) (invite : Option InviteRow) (db : Db)
    → Keeps db (roll_back db (join_guild_row env token u invite db)).1
unfolding join_guild_row
row-Keeps env token u none db = (refl, λ x y h. h)
row-Keeps env token u (some invite) db = elim (Option-cases (find_guild invite.scope_id db)) [
  | inl e ↦ (ground arith, λ x y h. ground arith)
  | inr (guild, e) ↦
      (let k = found-Keeps env token u invite guild db in
        (ground (arith, k.0), λ x y h. ground (arith, k.1 x y h)))
]

join_guild_invite-Keeps :
    (env : Env) (u : ℕ) (token : Text) (db : Db) → Keeps db (join_guild_invite env u token db).1
unfolding join_guild_invite join_guild_via_invite
join_guild_invite-Keeps env u token db =
    let k = row-Keeps env (trim token) u (find_invite (trim token) db) db in
    (ground (arith, k.0), λ x y h. ground (arith, k.1 x y h))

is_member_refl : (g u : ℕ) → (g == g && u == u) ≡ true
is_member_refl g u = ground (arith, ==_refl g, ==_refl u)

new_guild : Env → ℕ → Text → GuildSummary
new_guild env u name = record {
  id = env.new_v4 0;
  name = name;
  owner_id = u;
  created_at = env.db_now;
}

repo_create_guild_failed :
    (env : Env) (u : ℕ) (name : Text) (db : Db)
    → is_ok (repo_create_guild env u name db).0 ≡ false
    → (repo_create_guild env u name db).1 ≡ db
unfolding repo_create_guild insert_guild create_default_role attach_default_role_to_member
repo_create_guild_failed env u name db h = ground arith

repo_create_guild_created :
    (env : Env) (u : ℕ) (name : Text) (db : Db)
    → is_ok (repo_create_guild env u name db).0 ≡ true
    → ((repo_create_guild env u name db).1.guilds ≡ new_guild env u name ∷ db.guilds)
      × ((repo_create_guild env u name db).1.guild_members
          ≡ record { scope_id = env.new_v4 0; user_id = u } ∷ db.guild_members)
unfolding new_guild repo_create_guild insert_guild create_default_role attach_default_role_to_member
repo_create_guild_created env u name db h = ground arith

IsOwned-cons :
    (guild : GuildSummary) (db db' : Db)
    → db'.guilds ≡ guild ∷ db.guilds
    → db'.guild_members
      ≡ record { scope_id = guild.id; user_id = guild.owner_id } ∷ db.guild_members
    → IsOwned db
    → IsOwned db'
IsOwned-cons guild db db' p q c g other e = elim (Bool-cases (guild.id == g)) [
  | inl k ↦
      rw q (ground (arith, p, is_member_refl guild.id guild.owner_id, (==_iff guild.id g).0 k))
  | inr k ↦ rw q (ground (arith, c g other, p))
]

repo_create_guild-IsOwned :
    (env : Env) (u : ℕ) (name : Text) (db : Db)
    → IsOwned db
    → IsOwned (repo_create_guild env u name db).1
unfolding new_guild
repo_create_guild-IsOwned env u name db c =
    elim (Bool-cases (is_ok (repo_create_guild env u name db).0)) [
      | inl h ↦
          (let made = repo_create_guild_created env u name db h in
            IsOwned-cons (new_guild env u name) db (repo_create_guild env u name db).1 made.0 made.1
              c)
      | inr h ↦ rw (repo_create_guild_failed env u name db h) c
    ]

create_guild-IsOwned :
    (env : Env) (u : ℕ) (name : Text) (db : Db)
    → IsOwned db
    → IsOwned (create_guild env u name db).1
unfolding create_guild
create_guild-IsOwned env u name db c g guild e =
    ground (arith, c g guild, repo_create_guild-IsOwned env u (trim name) db c g guild)

owner_found :
    (g u : ℕ) (guild : GuildSummary) (rows : List GuildSummary)
    → find_where (λ r. r.id == g) rows ≡ some guild
    → guild.owner_id ≡ u
    → exists_where (λ r. r.id == g && r.owner_id == u) rows ≡ true
owner_found g u guild [] h k = absurd (ground arith)
owner_found g u guild (r ∷ rows) h k =
    ground (arith, owner_found g u guild rows, (==_iff r.owner_id u).1)

still_member :
    (g u h v : ℕ) (rows : List MemberRow)
    → (h == g && v == u) ≡ false
    → exists_where (is_member h v) rows ≡ true
    → exists_where (is_member h v) (delete_where (is_member g u) rows) ≡ true
still_member g u h v [] k e = absurd (ground arith)
still_member g u h v (r ∷ rows) k e =
    ground (arith, still_member g u h v rows k, (==_iff r.scope_id h).0, (==_iff r.user_id v).0)

leave_guild_guilds : (u g : ℕ) (db : Db) → (leave_guild u g db).1.guilds ≡ db.guilds
unfolding leave_guild remove_member
leave_guild_guilds u g db = ground arith

leave_guild-IsOwned : (u g : ℕ) (db : Db) → IsOwned db → IsOwned (leave_guild u g db).1
unfolding leave_guild remove_member is_guild_owner
leave_guild-IsOwned u g db c h guild e =
    let before : find_guild h db ≡ some guild = ground (arith, leave_guild_guilds u g db) in
    ground (
      arith,
      c h guild before,
      owner_found h u guild db.guilds before,
      still_member g u h guild.owner_id db.guild_members,
      (==_iff h g).0,
      (==_iff guild.owner_id u).0,
    )

Step-IsOwned : {t u : Db} → Step t u → IsOwned t → IsOwned u
Step-IsOwned (create_guild_step env u name db) c = create_guild-IsOwned env u name db c
Step-IsOwned (join_guild_step u g db) c =
    Keeps-IsOwned db (join_guild u g db).1 (join_guild-Keeps u g db) c
Step-IsOwned (leave_guild_step u g db) c = leave_guild-IsOwned u g db c
Step-IsOwned (create_channel_step env u g name db) c =
    Keeps-IsOwned db (create_channel env u g name db).1 (create_channel-Keeps env u g name db) c
Step-IsOwned (create_guild_invite_step env token u g expires max_uses db) c =
    Keeps-IsOwned db (create_guild_invite env token u g expires max_uses db).1
      (create_guild_invite-Keeps env token u g expires max_uses db) c
Step-IsOwned (join_guild_invite_step env u token db) c =
    Keeps-IsOwned db (join_guild_invite env u token db).1 (join_guild_invite-Keeps env u token db) c

-- If the owner of every guild is one of its members, this stays so in any sequence of calls that
-- create guilds, channels and invites, join by id or by invite, and leave.
pub Reach-IsOwned : {s t : Db} → IsOwned s → Reach s t → IsOwned t
Reach-IsOwned c start = c
Reach-IsOwned c (next r st) = Step-IsOwned st (Reach-IsOwned c r)

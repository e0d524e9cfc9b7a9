-- ===== src/Guild/Permissions/Precedence.antt =====
-- Which row decides on a flag.
use sagiton.Prelude.{
  ℕ, zero, suc, ◌≡◌, refl, ◌<◌, ◌-◌, min, max, Bool, ◌&&◌, some, List, [], ◌∷◌, bit_and, bit_or,
  bit_not, bit, ◌==◌, if◌then◌else◌, arith, bit-bit_or, bit-bit_and, bit-bit_not, bit-le-one,
}
use sagiton.Database.Table.{exists_where}
use sagiton.Schema.{Db}
use sagiton.Guild.Permissions.{
  bit_or_where, has_role, is_role_override, is_member_override, adjust, guild_of_channel,
  effective_permissions, resolve_channel_permissions,
}

-- Some row that satisfies a test sets flag `i` in `f`.
abbrev pub some_sets : {R : Type 0} → (R → Bool) → (R → ℕ) → ℕ → List R → Bool
some_sets test f i rows = exists_where (λ r. test r && bit (f r) i == 1) rows

-- Flag `i` as the rows say it: an override for the member comes before one for a role of the
-- member, and that before the roles; an allow comes before a deny.
abbrev pub decided : (guild_id user_id channel_id : ℕ) → Db → ℕ → ℕ
decided g u c db i =
    if some_sets (is_member_override u c) (λ o. o.allow) i db.channel_overrides
    then 1
    else if some_sets (is_member_override u c) (λ o. o.deny) i db.channel_overrides
    then 0
    else if some_sets (is_role_override g u c db) (λ o. o.allow) i db.channel_overrides
    then 1
    else if some_sets (is_role_override g u c db) (λ o. o.deny) i db.channel_overrides
    then 0
    else if some_sets (λ r. has_role g u r.id db) (λ r. r.permissions) i db.roles
    then 1
    else 0

bit-zero : (i : ℕ) → bit 0 i ≡ 0
bit-zero zero = refl
bit-zero (suc i) = bit-zero i

bit-bit_or_where :
    {R : Type 0} (p : R → Bool) (f : R → ℕ) (i : ℕ) (rows : List R)
    → bit (bit_or_where p f rows) i ≡ (if some_sets p f i rows then 1 else 0)
bit-bit_or_where p f i [] = bit-zero i
bit-bit_or_where p f i (r ∷ rows) =
    let rest = bit_or_where p f rows in
    ground (arith, bit-bit_or_where p f i rows, bit-bit_or (f r) rest i, bit-le-one (f r) i)

bit-adjust :
    (i base rd ra md ma : ℕ)
    → i < 64
    → bit (adjust base rd ra md ma) i
      ≡ max (min (max (min (bit base i) (1 - bit rd i)) (bit ra i)) (1 - bit md i)) (bit ma i)
unfolding adjust
bit-adjust i base rd ra md ma h =
    let masked = bit_and base (bit_not 64 rd) in
    let adjusted = bit_or masked ra in
    omega (
      arith,
      bit-bit_or (bit_and adjusted (bit_not 64 md)) ma i,
      bit-bit_and adjusted (bit_not 64 md) i,
      bit-bit_not 64 md i h,
      bit-bit_or masked ra i,
      bit-bit_and base (bit_not 64 rd) i,
      bit-bit_not 64 rd i h,
    )

abbrev flag : Bool → ℕ
flag b = if b then 1 else 0

precedence :
    (base rd ra md ma : Bool)
    → max (min (max (min (flag base) (1 - flag rd)) (flag ra)) (1 - flag md)) (flag ma) ≡ (
        if ma
        then 1
        else if md
        then 0
        else if ra
        then 1
        else if rd
        then 0
        else if base
        then 1
        else 0)
precedence base rd ra md ma = ground arith

bit-effective_permissions :
    (g u c : ℕ) (db : Db) (i : ℕ)
    → i < 64
    → bit (effective_permissions g u c db) i ≡ decided g u c db i
unfolding effective_permissions
bit-effective_permissions g u c db i h =
    rw
      (
        bit-adjust i _ _ _ _ _ h,
        bit-bit_or_where (λ r. has_role g u r.id db) (λ r. r.permissions) i db.roles,
        bit-bit_or_where (is_role_override g u c db) (λ o. o.deny) i db.channel_overrides,
        bit-bit_or_where (is_role_override g u c db) (λ o. o.allow) i db.channel_overrides,
        bit-bit_or_where (is_member_override u c) (λ o. o.deny) i db.channel_overrides,
        bit-bit_or_where (is_member_override u c) (λ o. o.allow) i db.channel_overrides,
      )
      (precedence _ _ _ _ _)

-- In the permissions that are resolved for a user in a channel, a flag among the 64 is decided by
-- the first kind of row that sets it: an allow for the member, a deny for the member, an allow for
-- a role of the member, a deny for a role of the member, a role of the member.
pub resolve_channel_permissions_precedence :
    (u c : ℕ) (db : Db) (g bits i : ℕ)
    → guild_of_channel u c db ≡ some g
    → resolve_channel_permissions u c db ≡ some bits
    → i < 64
    → bit bits i ≡ decided g u c db i
unfolding resolve_channel_permissions
resolve_channel_permissions_precedence u c db g bits i found e h =
    let same : some (effective_permissions g u c db) ≡ some bits =
      rw (found, resolve_channel_permissions) at e in
    grind (arith, bit-effective_permissions g u c db i h)

-- ===== src/Invite.antt =====
-- The uses of an invite, for the tables `guild_invites` and `group_invites`: a limit on the uses,
-- and what counting one use does to the rows.
use mathlib.Core.Path.{subst}
use sagiton.Prelude.{
  ℕ, ◌+◌, ◌≡◌, refl, Bool, true, false, Option, none, some, List, ◌∷◌, arith, leb, Bool-cases,
  Option-cases, inl, inr,
}
use sagiton.Database.Table.{find_where, update_where, find_where-update_where, find_where-holds}
use sagiton.Schema.{InviteRow}
use sagiton.Text.{Text, text_eq, text_eq_iff}
use sagiton.Guild.{is_used_up}

abbrev pub is_within : Option ℕ → ℕ → Bool
is_within none used = true
is_within (some cap) used = leb used cap

-- No invite that a token finds has been used more often than its limit allows.
abbrev pub IsCapped : List InviteRow → Type 0
IsCapped rows =
    (t : Text) (i : InviteRow)
    → find_where (λ r. text_eq r.token t) rows ≡ some i
    → is_within i.max_uses i.used_count ≡ true

one_more :
    (cap : Option ℕ) (used : ℕ) → is_used_up cap used ≡ false → is_within cap (used + 1) ≡ true
one_more none used h = refl
one_more (some cap) used h = ground arith

same_token :
    (rows : List InviteRow) (t u : Text) (i : InviteRow)
    → find_where (λ r. text_eq r.token t) rows ≡ some i
    → text_eq i.token u ≡ true
    → find_where (λ r. text_eq r.token u) rows ≡ some i
same_token rows t u i h k =
    let found = find_where-holds (λ (r : InviteRow). text_eq r.token t) rows i h in
    let same : t ≡ u =
      grind (arith, (text_eq_iff i.token t).0 found, (text_eq_iff i.token u).0 k) in
    subst (λ v. find_where (λ r. text_eq r.token v) rows ≡ some i) same h

-- One more use of the invite with a token.
abbrev pub counted : Text → List InviteRow → List InviteRow
counted token rows =
    update_where (λ i. text_eq i.token token) (λ i. record i { used_count = i.used_count + 1 }) rows

pub counted-IsCapped :
    (token : Text) (rows : List InviteRow) (invite : InviteRow)
    → find_where (λ r. text_eq r.token token) rows ≡ some invite
    → is_used_up invite.max_uses invite.used_count ≡ false
    → IsCapped rows
    → IsCapped (counted token rows)
counted-IsCapped token rows invite found h c t i e =
    let p : InviteRow → Bool = λ r. text_eq r.token t in
    let law =
      find_where-update_where p (λ r. text_eq r.token token)
        (λ r. record r { used_count = r.used_count + 1 }) (λ r k. refl) rows in
    elim (Option-cases (find_where p rows)) [
      | inl absent ↦ absurd (ground arith)
      | inr (j, present) ↦ elim (Bool-cases (text_eq j.token token)) [
        | inl k ↦
            (let same : find_where (λ r. text_eq r.token token) rows ≡ some j =
                same_token rows t token j present k in
              ground (arith, one_more j.max_uses j.used_count))
        | inr k ↦ ground (arith, c t j present)
      ]
    ]

pub unused-IsCapped :
    (rows : List InviteRow) (invite : InviteRow)
    → invite.used_count ≡ 0
    → IsCapped rows
    → IsCapped (invite ∷ rows)
unused-IsCapped rows invite z c t i e = elim (Bool-cases (text_eq invite.token t)) [
  | inl k ↦ ground arith
  | inr k ↦ ground (arith, c t i)
]

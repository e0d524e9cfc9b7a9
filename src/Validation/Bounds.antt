-- ===== src/Validation/Bounds.antt =====
-- What the checked inputs satisfy.
use sagiton.Prelude.{
  ℕ, zero, suc, ◌≤◌, ◌≡◌, ◌≢◌, ◌⊎◌, inl, inr, refl, false, Option, none, some, [], arith, unwrap_or,
  length, min, max, ltb, Bool-cases,
}
use sagiton.Prelude.Int.{ℤ, pos, negsuc}
use sagiton.Text.{Text, trim, len, trim_idem, length-le-len}
use sagiton.Shared.{ok, is_ok}
use sagiton.Validation.{validate_message_content, normalize_limit, normalize_invite_expiry}

-- Content that is accepted has, trimmed, from 1 to 4000 bytes; its trimmed form, which is
-- what is stored, is accepted too, and has at most 4000 characters.
pub message_content_bounds :
    (content : Text)
    → validate_message_content content ≡ ok tt
    → (trim content ≢ [])
      × (len (trim content) ≤ 4000)
      × (length (trim content) ≤ 4000)
      × (validate_message_content (trim content) ≡ ok tt)
unfolding validate_message_content
message_content_bounds content h = (
  ground arith,
  ground arith,
  ground (arith, length-le-len (trim content)),
  ground (arith, trim_idem content),
)

-- The rows that a limit asks for: 50 if it is left out, and none if it is negative.
abbrev pub rows_asked : Option ℤ → ℕ
rows_asked none = 50
rows_asked (some (pos m)) = m
rows_asked (some (negsuc m)) = 0

-- A page limit that is given and positive, or left out, gives the rows that it asks for, from 1 to
-- 100, or 100 where it asks for more; any other limit is refused.
pub limit_bounds :
    (limit : Option ℤ)
    → ((n : ℕ) × (normalize_limit limit ≡ ok n)
        × (1 ≤ n)
        × (n ≤ 100)
        × (n ≡ min (rows_asked limit) 100))
      ⊎ ((rows_asked limit ≡ 0) × (is_ok (normalize_limit limit) ≡ false))
unfolding normalize_limit
limit_bounds none = inl (50, refl, omega arith, omega arith, omega arith)
limit_bounds (some (pos zero)) = inr (refl, refl)
limit_bounds (some (pos (suc m))) = elim (Bool-cases (ltb 100 (suc m))) [
  | inl e ↦ inl (100, ground arith, omega arith, omega arith, ground arith)
  | inr e ↦ inl (suc m, ground arith, omega arith, ground arith, ground arith)
]
limit_bounds (some (negsuc m)) = inr (refl, refl)

-- An invite lives for at least a minute and at most thirty days, as long as asked within that, and
-- for seven days if nothing is asked.
pub invite_expiry_bounds :
    (asked : Option ℕ)
    → (60 ≤ normalize_invite_expiry asked)
      × (normalize_invite_expiry asked ≤ 2592000)
      × (normalize_invite_expiry asked ≡ max 60 (min (unwrap_or asked 604800) 2592000))
unfolding normalize_invite_expiry
invite_expiry_bounds none = ground arith
invite_expiry_bounds (some asked) = ground arith

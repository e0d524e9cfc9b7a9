-- ===== src/Validation/Tests.antt =====
-- Checked inputs.
use sagiton.Prelude.{
  ℕ, ◌≡◌, ◌≢◌, ◌≤◌, ◌⊎◌, refl, none, some, false, min, max, List, [], ◌∷◌, ◌==◌, ◌&&◌, not, length,
  unwrap_or,
}
use sagiton.Prelude.Int.{pos}
use sagiton.Text.{Text, trim, len}
use sagiton.Collections.{contains}
use sagiton.Shared.{ok, is_ok}
use sagiton.Validation.{
  validate_message_content, normalize_limit, normalize_invite_expiry, normalize_member_ids,
  collect_members, btree_insert,
}
use sagiton.Validation.Bounds.{
  message_content_bounds, rows_asked, limit_bounds, invite_expiry_bounds,
}
use sagiton.Validation.Members.{IsAscending, member_ids_exact}

abbrev padded : Text
padded = 32 ∷ 72 ∷ 105 ∷ 32 ∷ []

message_content_bounds_example :
    (trim padded ≢ [])
    × (len (trim padded) ≤ 4000)
    × (length (trim padded) ≤ 4000)
    × (validate_message_content (trim padded) ≡ ok tt)
unfolding validate_message_content trim len
message_content_bounds_example = message_content_bounds padded refl

limit_bounds_example :
    ((n : ℕ) × (normalize_limit (some (pos 250)) ≡ ok n)
      × (1 ≤ n)
      × (n ≤ 100)
      × (n ≡ min (rows_asked (some (pos 250))) 100))
    ⊎ ((rows_asked (some (pos 250)) ≡ 0) × (is_ok (normalize_limit (some (pos 250))) ≡ false))
limit_bounds_example = limit_bounds (some (pos 250))

invite_expiry_bounds_example :
    (60 ≤ normalize_invite_expiry none)
    × (normalize_invite_expiry none ≤ 2592000)
    × (normalize_invite_expiry none ≡ max 60 (min (unwrap_or none 604800) 2592000))
invite_expiry_bounds_example = invite_expiry_bounds none

abbrev asked : List ℕ
asked = 9 ∷ 4 ∷ 9 ∷ 1 ∷ []

abbrev kept : List ℕ
kept = 4 ∷ 9 ∷ []

member_ids_exact_example :
    IsAscending kept
    × (length kept ≤ 30)
    × ((k : ℕ) → contains k kept ≡ (contains k asked && not (k == 1)))
unfolding normalize_member_ids collect_members btree_insert
member_ids_exact_example = member_ids_exact 1 asked kept refl

-- ===== src/Permission/Tests.antt =====
-- Flags at concrete masks.
use sagiton.Prelude.{ℕ, ◌≡◌, ◌≤◌, ◌↔◌, true, bit}
use sagiton.Permission.{has}
use sagiton.Permission.Laws.{has_iff}

has_iff_example : (has 7 2 ≡ true) ↔ ((i : ℕ) → bit 2 i ≤ bit 7 i)
has_iff_example = has_iff 7 2

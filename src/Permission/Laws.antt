-- ===== src/Permission/Laws.antt =====
-- What `has` tests.
use sagiton.Prelude.{ℕ, ◌≤◌, ◌≡◌, ◌↔◌, true, bit_and, bit, bit_and-eq-mask_iff, ==_iff}
use sagiton.Permission.{has}

-- `has` holds exactly when every bit of the required mask is set.
pub has_iff :
    (bits required : ℕ) → (has bits required ≡ true) ↔ ((i : ℕ) → bit required i ≤ bit bits i)
unfolding has
has_iff bits required = (
  λ h. (bit_and-eq-mask_iff bits required).0 ((==_iff (bit_and bits required) required).0 h),
  λ k. (==_iff (bit_and bits required) required).1 ((bit_and-eq-mask_iff bits required).1 k),
)

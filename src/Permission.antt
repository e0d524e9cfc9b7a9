-- ===== src/Permission.antt =====
-- backend/src/domain/permission/mod.rs: sets of flags in an `i64`, as the number of the bit pattern.
pub mod Laws
mod Tests
use sagiton.Prelude.{ℕ, Bool, bit_and, ◌==◌}

abbrev pub view_channel : ℕ
view_channel = 1

abbrev pub send_messages : ℕ
send_messages = 2

abbrev pub manage_channels : ℕ
manage_channels = 4

abbrev pub manage_roles : ℕ
manage_roles = 8

abbrev pub kick_members : ℕ
kick_members = 16

-- `PermissionBits::has`.
unfoldable pub has : (bits required : ℕ) → Bool
has bits required = bit_and bits required == required

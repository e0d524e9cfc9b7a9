-- ===== src/Auth/Hex.antt =====
-- backend/src/infrastructure/jwt/refresh_token.rs. The random bytes are an argument, and HMAC-SHA256 is
-- a parameter: it gives no digest where it refuses the key.
use sagiton.Prelude.{
  ℕ, ◌+◌, ◌-◌, ◌*◌, ◌/◌, ◌%◌, ◌<◌, ◌≡◌, refl, Option, none, some, List, [], ◌∷◌, length, ltb,
  if◌then◌else◌, arith,
}
use sagiton.Text.{Text, trim, len}
use sagiton.Database.Table.{All}

-- The character at an index of "0123456789abcdef".
abbrev pub hex_digit : ℕ → ℕ
hex_digit i = if ltb i 10 then 48 + i else 87 + i

-- `to_hex`: the digits of `b >> 4` and of `b & 0x0f`, for each byte.
unfoldable pub to_hex : List ℕ → Text
to_hex [] = []
to_hex (b ∷ bytes) = hex_digit (b / 16) ∷ hex_digit (b % 16) ∷ to_hex bytes

abbrev pub min_pepper_length : ℕ
min_pepper_length = 16

-- `RefreshTokenAdapter::new`: the pepper of the adapter, unless it is too short.
unfoldable pub new_adapter : (pepper : Text) → Option Text
new_adapter pepper = if ltb (len (trim pepper)) min_pepper_length then none else some pepper

-- `generate_refresh_token`.
unfoldable pub generate_refresh_token : (bytes : List ℕ) → Text
unfolding to_hex
generate_refresh_token bytes = to_hex bytes

-- `hash_refresh_token`, on the digest of the token under the pepper.
unfoldable pub hash_refresh_token : (digest : Option (List ℕ)) → Text
unfolding to_hex
hash_refresh_token none = []
hash_refresh_token (some digest) = to_hex digest

-- The value of a hexadecimal digit, and the bytes that pairs of them spell.
abbrev pub digit_value : ℕ → ℕ
digit_value c = if ltb c 58 then c - 48 else c - 87

unfoldable pub from_hex : Text → List ℕ
from_hex [] = []
from_hex (h ∷ []) = []
from_hex (h ∷ l ∷ s) = (digit_value h * 16 + digit_value l) ∷ from_hex s

digit_value-hex_digit : (i : ℕ) → i < 16 → digit_value (hex_digit i) ≡ i
digit_value-hex_digit i h = ground arith

byte_read :
    (b : ℕ) → b < 256 → digit_value (hex_digit (b / 16)) * 16 + digit_value (hex_digit (b % 16)) ≡ b
byte_read b h = omega (
  arith,
  digit_value-hex_digit (b / 16) (omega arith),
  digit_value-hex_digit (b % 16) (omega arith),
)

-- The text of bytes determines them, and has two characters for each.
pub from_hex-to_hex :
    (bytes : List ℕ)
    → All (λ b. b < 256) bytes
    → (from_hex (to_hex bytes) ≡ bytes) × (length (to_hex bytes) ≡ 2 * length bytes)
unfolding from_hex to_hex
from_hex-to_hex [] h = (refl, refl)
from_hex-to_hex (b ∷ bytes) h =
    let rest = from_hex-to_hex bytes h.1 in
    (rw (byte_read b h.0, rest.0) refl, omega (arith, rest.1))

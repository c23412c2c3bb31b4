-- ===== src/Tests/HexDigits.antt =====
-- Hexadecimal digits for the runs.
use cmx_rdma.Base.{
  ℕ, ◌+◌, ◌-◌, ◌*◌, ◌/◌, ◌%◌, ◌<◌, ◌≡◌, refl, true, ◌&&◌, Option, none, some, [], ◌∷◌, arith, ltb,
  leb, bytes_eq, if◌then◌else◌, All, Bytes,
}
use cmx_rdma.Agent.Codecs.{Hex, is_hex_digit}

abbrev digit : ℕ → ℕ
digit d = if ltb d 10 then b'0' + d else 87 + d

abbrev digit_value : ℕ → Option ℕ
digit_value x =
    if leb b'0' x && leb x b'9'
    then some (x - b'0')
    else if leb b'a' x && leb x b'f'
    then some (x - 87)
    else none

abbrev pub to_hex : Bytes → Bytes
to_hex [] = []
to_hex (b ∷ bs) = digit (b % 256 / 16) ∷ digit (b % 16) ∷ to_hex bs

abbrev pair : Option ℕ → Option ℕ → Option Bytes → Option Bytes
pair (some x) (some y) (some rest) = some ((x * 16 + y) ∷ rest)
pair none y rest = none
pair (some x) none rest = none
pair (some x) (some y) none = none

abbrev from_hex : Bytes → Option Bytes
from_hex [] = some []
from_hex (x ∷ []) = none
from_hex (x ∷ y ∷ rest) = pair (digit_value x) (digit_value y) (from_hex rest)

digit_value-digit : (d : ℕ) → d < 16 → digit_value (digit d) ≡ some d
digit_value-digit d h = ground arith

digit-hex : (d : ℕ) → d < 16 → is_hex_digit (digit d) ≡ true
digit-hex d h = ground arith

pub from_hex-to_hex : (bs : Bytes) → All (λ b. b < 256) bs → from_hex (to_hex bs) ≡ some bs
from_hex-to_hex [] h = refl
from_hex-to_hex (b ∷ bs) (h, hs) =
    let high : digit_value (digit (b % 256 / 16)) ≡ some (b % 256 / 16) =
      digit_value-digit (b % 256 / 16) (omega arith) in
    let low : digit_value (digit (b % 16)) ≡ some (b % 16) =
      digit_value-digit (b % 16) (omega arith) in
    let number : b % 256 / 16 * 16 + b % 16 ≡ b = omega arith in
    rw (high, low, from_hex-to_hex bs hs, number) refl

pub to_hex-digits : (bs : Bytes) → All (λ b. is_hex_digit b ≡ true) (to_hex bs)
to_hex-digits [] = tt
to_hex-digits (b ∷ bs) =
    (digit-hex (b % 256 / 16) (omega arith), (digit-hex (b % 16) (omega arith), to_hex-digits bs))

abbrev pub hex : Hex to_hex
hex = record {
  decode = from_hex;
  decode-encode = λ bs h. from_hex-to_hex bs h;
  encode-digits = λ bs. to_hex-digits bs;
}

-- ===== src/Links/Bytes.antt =====
-- Bytes and the units that packages/core/src/links.ts writes them in.
use comamessenger.Prelude.Units.{Text}
use comamessenger.Prelude.{
  ℕ, zero, suc, ◌+◌, ◌*◌, ◌/◌, ◌%◌, ◌<◌, ◌≡◌, refl, List, [], ◌∷◌, true, arith, length, All,
}
use comamessenger.Links.{
  unit_of, index_of, is_link_unit, are_link_units, is_hex, are_hex, digit_value, hex_digit,
  bytes_of, encode_bytes, decode_units, hex_text,
}

abbrev pub AreBytes : List ℕ → Type 0
AreBytes = All (λ b. b < 256)

index_of-unit_of : (n : ℕ) → n < 64 → index_of (unit_of n) ≡ n
unfolding index_of unit_of
index_of-unit_of n h = ground arith

unit_of-is_link_unit : (n : ℕ) → n < 64 → is_link_unit (unit_of n) ≡ true
unfolding unit_of
unit_of-is_link_unit n h = ground arith

-- What three units say of a byte, and of the next two.
first_byte : (l m : ℕ) → l < 256 → m < 256 → l / 4 * 4 + (l % 4 * 16 + m / 16) / 16 ≡ l
first_byte l m hl hm = omega arith

second_byte :
    (l m r : ℕ)
    → m < 256
    → r < 256
    → (l % 4 * 16 + m / 16) % 16 * 16 + (m % 16 * 4 + r / 64) / 4 ≡ m
second_byte l m r hm hr = omega arith

third_byte : (m r : ℕ) → r < 256 → (m % 16 * 4 + r / 64) % 4 * 64 + r % 64 ≡ r
third_byte m r hr = omega arith

pub decode_units-encode_bytes : (bs : List ℕ) → AreBytes bs → decode_units (encode_bytes bs) ≡ bs
unfolding decode_units encode_bytes
decode_units-encode_bytes [] h = refl
decode_units-encode_bytes (l ∷ []) (hl, u) =
    rw
      (
        index_of-unit_of (l / 4) (omega arith),
        index_of-unit_of (l % 4 * 16 + 0 / 16) (omega arith),
        first_byte l 0 hl (omega arith),
      )
      refl
decode_units-encode_bytes (l ∷ m ∷ []) (hl, (hm, u)) =
    rw
      (
        index_of-unit_of (l / 4) (omega arith),
        index_of-unit_of (l % 4 * 16 + m / 16) (omega arith),
        index_of-unit_of (m % 16 * 4 + 0 / 64) (omega arith),
        first_byte l m hl hm,
        second_byte l m 0 hm (omega arith),
      )
      refl
decode_units-encode_bytes (l ∷ m ∷ r ∷ rest) (hl, (hm, (hr, h))) =
    rw
      (
        index_of-unit_of (l / 4) (omega arith),
        index_of-unit_of (l % 4 * 16 + m / 16) (omega arith),
        index_of-unit_of (m % 16 * 4 + r / 64) (omega arith),
        index_of-unit_of (r % 64) (omega arith),
        first_byte l m hl hm,
        second_byte l m r hm hr,
        third_byte m r hr,
        decode_units-encode_bytes rest h,
      )
      refl

pub digits_back : (c : ℕ) → is_hex c ≡ true → (hex_digit (digit_value c) ≡ c) × (digit_value c < 16)
unfolding digit_value hex_digit
digits_back c e = (ground (arith, e), ground (arith, e))

-- How many units some bytes take.
abbrev pub units_for : ℕ → ℕ
units_for zero = 0
units_for (suc zero) = 2
units_for (suc (suc zero)) = 3
units_for (suc (suc (suc n))) = 4 + units_for n

pub length-encode_bytes : (bs : List ℕ) → length (encode_bytes bs) ≡ units_for (length bs)
unfolding encode_bytes
length-encode_bytes [] = refl
length-encode_bytes (l ∷ []) = refl
length-encode_bytes (l ∷ m ∷ []) = refl
length-encode_bytes (l ∷ m ∷ r ∷ rest) = omega (arith, length-encode_bytes rest)

pub encode_bytes-are_link_units :
    (bs : List ℕ) → AreBytes bs → are_link_units (encode_bytes bs) ≡ true
unfolding encode_bytes are_link_units
encode_bytes-are_link_units [] h = refl
encode_bytes-are_link_units (l ∷ []) (hl, u) =
    rw
      (
        unit_of-is_link_unit (l / 4) (omega arith),
        unit_of-is_link_unit (l % 4 * 16 + 0 / 16) (omega arith),
      )
      refl
encode_bytes-are_link_units (l ∷ m ∷ []) (hl, (hm, u)) =
    rw
      (
        unit_of-is_link_unit (l / 4) (omega arith),
        unit_of-is_link_unit (l % 4 * 16 + m / 16) (omega arith),
        unit_of-is_link_unit (m % 16 * 4 + 0 / 64) (omega arith),
      )
      refl
encode_bytes-are_link_units (l ∷ m ∷ r ∷ rest) (hl, (hm, (hr, h))) =
    rw
      (
        unit_of-is_link_unit (l / 4) (omega arith),
        unit_of-is_link_unit (l % 4 * 16 + m / 16) (omega arith),
        unit_of-is_link_unit (m % 16 * 4 + r / 64) (omega arith),
        unit_of-is_link_unit (r % 64) (omega arith),
        encode_bytes-are_link_units rest h,
      )
      refl

-- The bytes of hexadecimal digits, which an even number of them are of.
pub bytes_of_hex :
    (t : Text) (n : ℕ)
    → length t ≡ n + n
    → are_hex t ≡ true
    → AreBytes (bytes_of t) × (length (bytes_of t) ≡ n) × (hex_text (bytes_of t) ≡ t)
unfolding bytes_of hex_text are_hex
bytes_of_hex [] zero e h = (tt, refl, refl)
bytes_of_hex [] (suc n) e h = absurd (omega arith)
bytes_of_hex (c ∷ []) n e h = absurd (omega arith)
bytes_of_hex (c ∷ d ∷ ds) zero e h = absurd (omega arith)
bytes_of_hex (c ∷ d ∷ ds) (suc n) e h =
    let (c1, c2) = digits_back c (ground (arith, h)) in
    let (d1, d2) = digits_back d (ground (arith, h)) in
    let (b1, b2, b3) = bytes_of_hex ds n (omega arith) (ground (arith, h)) in
    let high : (16 * digit_value c + digit_value d) / 16 ≡ digit_value c = omega arith in
    let low : (16 * digit_value c + digit_value d) % 16 ≡ digit_value d = omega arith in
    ((omega arith, b1), omega (arith, b2), rw (high, low, c1, d1, b3) refl)

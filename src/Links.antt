-- ===== src/Links.antt =====
-- packages/core/src/links.ts: identifiers in a short form. Texts are lists of UTF-16 units. `x >> k` and
-- `x & (2 ** k - 1)` are a quotient and a remainder, and `|` joins disjoint bits as a sum does.
pub mod Bytes
pub mod RoundTrip
pub mod Tests
use comamessenger.Prelude.Units.{Text, slice}
use comamessenger.Prelude.{
  ℕ, zero, suc, ◌+◌, ◌-◌, ◌*◌, ◌/◌, ◌%◌, List, [], ◌∷◌, ◌++◌, Bool, true, false, ◌&&◌, ◌||◌, Option,
  none, some, ltb, leb, ◌==◌, if◌then◌else◌, length,
}

-- The unit of `alphabet` at an index, and the index of a unit.
unfoldable pub unit_of : ℕ → ℕ
unit_of n =
    if ltb n 26
    then n + 65
    else if ltb n 52
    then n + 71
    else if ltb n 62
    then n - 4
    else if n == 62
    then 45
    else 95

unfoldable pub index_of : ℕ → ℕ
index_of c =
    if leb 65 c && leb c 90
    then c - 65
    else if leb 97 c && leb c 122
    then c - 71
    else if leb 48 c && leb c 57
    then c + 4
    else if c == 45
    then 62
    else 63

-- `[A-Za-z0-9_-]`, and all of a text
abbrev pub is_link_unit : ℕ → Bool
is_link_unit c =
    (leb 65 c && leb c 90)
    || (leb 97 c && leb c 122)
    || (leb 48 c && leb c 57)
    || c == 95
    || c == 45

unfoldable pub are_link_units : Text → Bool
are_link_units [] = true
are_link_units (c ∷ cs) = let rest = are_link_units cs in is_link_unit c && rest

-- `[0-9a-f]`, and all of a text
abbrev pub is_hex : ℕ → Bool
is_hex c = (leb 48 c && leb c 57) || (leb 97 c && leb c 102)

unfoldable pub are_hex : Text → Bool
are_hex [] = true
are_hex (c ∷ cs) = let rest = are_hex cs in is_hex c && rest

-- `value.replaceAll("-", "").toLowerCase()`, as far as hexadecimal digits go
unfoldable pub hex_of : Text → Text
hex_of [] = []
hex_of (c ∷ cs) =
    let rest = hex_of cs in
    if c == 45 then rest else (if leb 65 c && leb c 90 then c + 32 else c) ∷ rest

-- A digit in base 16, and its value.
unfoldable pub digit_value : ℕ → ℕ
digit_value c = if leb c 57 then c - 48 else c - 87

unfoldable pub hex_digit : ℕ → ℕ
hex_digit n = if ltb n 10 then n + 48 else n + 87

-- `Number.parseInt` of two digits after two
unfoldable pub bytes_of : Text → List ℕ
unfolding digit_value
bytes_of [] = []
bytes_of (c ∷ []) = []
bytes_of (c ∷ d ∷ ds) = (16 * digit_value c + digit_value d) ∷ bytes_of ds

-- The loop of `compactUUID`, by three bytes.
unfoldable pub encode_bytes : List ℕ → Text
unfolding unit_of
encode_bytes [] = []
encode_bytes (left ∷ []) = unit_of (left / 4) ∷ unit_of (left % 4 * 16 + 0 / 16) ∷ []
encode_bytes (left ∷ middle ∷ []) =
    unit_of (left / 4)
    ∷ unit_of (left % 4 * 16 + middle / 16)
    ∷ unit_of (middle % 16 * 4 + 0 / 64)
    ∷ []
encode_bytes (left ∷ middle ∷ right ∷ rest) =
    unit_of (left / 4)
    ∷ unit_of (left % 4 * 16 + middle / 16)
    ∷ unit_of (middle % 16 * 4 + right / 64)
    ∷ unit_of (right % 64)
    ∷ encode_bytes rest

-- The result, or none where "invalid UUID" is thrown.
unfoldable pub compact_uuid : Text → Option Text
unfolding hex_of are_hex bytes_of encode_bytes
compact_uuid value =
    let hex = hex_of value in
    if length hex == 32 && are_hex hex then some (encode_bytes (bytes_of hex)) else none

-- The loop of `expandUUID`, by four units. A chunk of one unit has no second number.
unfoldable pub decode_units : Text → List ℕ
unfolding index_of
decode_units [] = []
decode_units (a ∷ []) = index_of a * 4 ∷ []
decode_units (a ∷ b ∷ []) = (index_of a * 4 + index_of b / 16) ∷ []
decode_units (a ∷ b ∷ c ∷ []) =
    (index_of a * 4 + index_of b / 16) ∷ (index_of b % 16 * 16 + index_of c / 4) ∷ []
decode_units (a ∷ b ∷ c ∷ d ∷ rest) =
    (index_of a * 4 + index_of b / 16)
    ∷ (index_of b % 16 * 16 + index_of c / 4)
    ∷ (index_of c % 4 * 64 + index_of d)
    ∷ decode_units rest

-- `byte.toString(16).padStart(2, "0")` of each byte
unfoldable pub hex_text : List ℕ → Text
unfolding hex_digit
hex_text [] = []
hex_text (b ∷ bs) = hex_digit (b / 16) ∷ hex_digit (b % 16) ∷ hex_text bs

unfoldable pub hyphenated : Text → Text
unfolding slice
hyphenated hex =
    slice 0 8 hex
    ++ (45 ∷ slice 8 12 hex
        ++ (45 ∷ slice 12 16 hex ++ (45 ∷ slice 16 20 hex ++ (45 ∷ slice 20 (length hex) hex))))

-- The result, or none where "invalid compact UUID" is thrown.
unfoldable pub expand_uuid : Text → Option Text
unfolding are_link_units decode_units hex_text hyphenated
expand_uuid value =
    let bytes = decode_units value in
    if length value == 22 && are_link_units value
    then (if length bytes == 16 then some (hyphenated (hex_text bytes)) else none)
    else none

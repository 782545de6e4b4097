-- ===== src/Links/Tests.antt =====
-- An identifier of 36 units.
use comamessenger.Prelude.Units.{Text}
use comamessenger.Prelude.{◌≡◌, refl, [], ◌∷◌, ◌++◌, length, some}
use comamessenger.Links.{hex_of, encode_bytes, bytes_of, compact_uuid, hyphenated, expand_uuid}
use comamessenger.Links.RoundTrip.{expand_uuid-compact_uuid}

abbrev four : Text
four = 48 ∷ 49 ∷ 97 ∷ 70 ∷ []

abbrev id : Text
id = four ++ (four ++ (45 ∷ four ++ (45 ∷ four ++ (45 ∷ four ++ (45 ∷ four ++ (four ++ four))))))

abbrev short : Text
short = encode_bytes (bytes_of (hex_of id))

is_short : compact_uuid id ≡ some short
unfolding compact_uuid
is_short = refl

expand_uuid-compact_uuid_example :
    (length short ≡ 22) × (expand_uuid short ≡ some (hyphenated (hex_of id)))
expand_uuid-compact_uuid_example = expand_uuid-compact_uuid id short is_short

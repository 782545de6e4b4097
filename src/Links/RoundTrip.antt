-- ===== src/Links/RoundTrip.antt =====
-- What `compactUUID` of packages/core/src/links.ts makes short, `expandUUID` makes long again.
use comamessenger.Prelude.Units.{Text}
use comamessenger.Prelude.{
  ℕ, ◌≡◌, refl, ap, ◌∙◌, subst, List, ◌&&◌, some, arith, ◌==◌, ==_iff, inl, inr, Bool-cases, length,
}
use comamessenger.Links.{
  hex_of, are_hex, bytes_of, encode_bytes, compact_uuid, hex_text, hyphenated, expand_uuid,
}
use comamessenger.Links.Bytes.{
  AreBytes, decode_units-encode_bytes, length-encode_bytes, encode_bytes-are_link_units,
  bytes_of_hex, units_for,
}

expand_uuid-encode_bytes :
    (bs : List ℕ)
    → AreBytes bs
    → length bs ≡ 16
    → (length (encode_bytes bs) ≡ 22)
      × (expand_uuid (encode_bytes bs) ≡ some (hyphenated (hex_text bs)))
unfolding expand_uuid
expand_uuid-encode_bytes bs h e =
    let long : length (encode_bytes bs) ≡ 22 = length-encode_bytes bs ∙ ap units_for e in
    (long, rw (long, encode_bytes-are_link_units bs h, decode_units-encode_bytes bs h, e) refl)

-- The short form of an identifier has 22 units, and is taken for the identifier again, in small letters
-- and with its hyphens in their places.
pub expand_uuid-compact_uuid :
    (value short : Text)
    → compact_uuid value ≡ some short
    → (length short ≡ 22) × (expand_uuid short ≡ some (hyphenated (hex_of value)))
unfolding compact_uuid
expand_uuid-compact_uuid value short e =
    elim (Bool-cases (length (hex_of value) == 32 && are_hex (hex_of value))) [
      | inl valid ↦
          let (bytes, size, back) =
            bytes_of_hex (hex_of value) 16
              ((==_iff (length (hex_of value)) 32).0 (ground (arith, valid)))
              (ground (arith, valid)) in
          let same : encode_bytes (bytes_of (hex_of value)) ≡ short = ground (arith, e, valid) in
          let (long, whole) = expand_uuid-encode_bytes (bytes_of (hex_of value)) bytes size in
          subst (λ t. (length t ≡ 22) × (expand_uuid t ≡ some (hyphenated (hex_of value)))) same
            (long, whole ∙ ap (λ t. some (hyphenated t)) back)
      | inr invalid ↦ absurd (ground (arith, e, invalid))
    ]

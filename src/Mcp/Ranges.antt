-- ===== src/Mcp/Ranges.antt =====
-- IPv6 ranges and the patterns of `isPrivateLiteralAddress` in apps/agent-runtime/src/mcp.ts.
use comamessenger.Prelude.Units.{Text, same_text}
use comamessenger.Prelude.{
  ℕ, ◌≡◌, refl, [], ◌∷◌, Bool, true, false, ◌||◌, Option, none, some, arith, ◌==◌, All, map,
  if◌then◌else◌,
}
use comamessenger.Mcp.Addresses.{
  drop_last_bracket, without_brackets, split_dots, is_letter, is_hex, begins, mapped_address,
  are_private_octets, is_private_host, is_private_literal_address,
}

abbrev pub IsUndotted : Text → Type 0
IsUndotted = All (λ c. (c == 46) ≡ false)

split_dots_undotted : (t : Text) → IsUndotted t → split_dots t ≡ t ∷ []
unfolding split_dots
split_dots_undotted [] h = refl
split_dots_undotted (c ∷ cs) h = rw (h.0, split_dots_undotted cs h.1) refl

one_octet : (o : Option ℕ) → are_private_octets (o ∷ []) ≡ false
unfolding are_private_octets
one_octet none = refl
one_octet (some a) = refl

module _ (number_of : Text → Option ℕ) (c a b : ℕ)
    (letter : (is_letter 99 c || is_letter 100 c) ≡ true) (fourth : is_hex b ≡ true) where
  host_passes :
      (t : Text)
      → IsUndotted (102 ∷ c ∷ a ∷ b ∷ 58 ∷ t)
      → is_private_host number_of (102 ∷ c ∷ a ∷ b ∷ 58 ∷ t) ≡ false
  unfolding is_private_host same_text begins
  host_passes t h =
      let whole : Text = 102 ∷ c ∷ a ∷ b ∷ 58 ∷ t in
      let octets : are_private_octets (map number_of (split_dots whole)) ≡ false =
        rw (split_dots_undotted whole h) (one_octet (number_of whole)) in
      ground (arith, octets, letter, fourth)

  literal_passes :
      (t : Text)
      → IsUndotted (102 ∷ c ∷ a ∷ b ∷ 58 ∷ drop_last_bracket t)
      → is_private_literal_address number_of (102 ∷ c ∷ a ∷ b ∷ 58 ∷ t) ≡ false
  unfolding is_private_literal_address without_brackets drop_last_bracket mapped_address begins
  literal_passes [] h = host_passes [] h
  literal_passes (x ∷ xs) h = host_passes (drop_last_bracket (x ∷ xs)) h

drop_last_bracket-IsUndotted : (t : Text) → IsUndotted t → IsUndotted (drop_last_bracket t)
unfolding drop_last_bracket
drop_last_bracket-IsUndotted [] h = tt
drop_last_bracket-IsUndotted (c ∷ []) h = last (c == 93) h.0
  where
    last : (e : Bool) → (c == 46) ≡ false → IsUndotted (if e then [] else c ∷ [])
    last true h = tt
    last false h = (h, tt)
drop_last_bracket-IsUndotted (c ∷ d ∷ ds) h = (h.0, drop_last_bracket-IsUndotted (d ∷ ds) h.1)

hex_undotted : (c : ℕ) → is_hex c ≡ true → (c == 46) ≡ false
hex_undotted c e = ground (arith, e)

letter_undotted : (c : ℕ) → (is_letter 99 c || is_letter 100 c) ≡ true → (c == 46) ≡ false
letter_undotted c e = ground (arith, e)

-- An address whose first group is `fc` or `fd` and two more digits, which is what the unique local range
-- fc00::/7 is, is not taken for a private one, unless a part of it is dotted.
pub unique_local_passes :
    (number_of : Text → Option ℕ) (c a b : ℕ) (t : Text)
    → (is_letter 99 c || is_letter 100 c) ≡ true
    → is_hex a ≡ true
    → is_hex b ≡ true
    → IsUndotted t
    → is_private_literal_address number_of (102 ∷ c ∷ a ∷ b ∷ 58 ∷ t) ≡ false
unique_local_passes number_of c a b t letter third fourth h =
    literal_passes number_of c a b letter fourth t (
      refl,
      (
        letter_undotted c letter,
        (hex_undotted a third, (hex_undotted b fourth, (refl, drop_last_bracket-IsUndotted t h))),
      ),
    )

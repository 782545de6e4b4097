-- ===== src/Mcp/Addresses.antt =====
-- The endpoints and addresses that apps/agent-runtime/src/mcp.ts takes for private. `number_of` stands
-- for `Number` of a text, where that is an integer from 0 on.
use comamessenger.Prelude.Units.{Text, same_text}
use comamessenger.Prelude.{
  ℕ, ◌+◌, ◌-◌, length, drop, List, [], ◌∷◌, Bool, true, false, ◌&&◌, ◌||◌, not, Option, none, some,
  leb, ◌==◌, if◌then◌else◌, map,
}
use comamessenger.AgentRuntime.Run.{mcp_error, Result, ok, threw}

-- `hostname.replace(/^\[|\]$/g, "")`
unfoldable pub drop_last_bracket : Text → Text
drop_last_bracket [] = []
drop_last_bracket (c ∷ []) = if c == 93 then [] else c ∷ []
drop_last_bracket (c ∷ d ∷ ds) = c ∷ drop_last_bracket (d ∷ ds)

unfoldable pub without_brackets : Text → Text
unfolding drop_last_bracket
without_brackets [] = []
without_brackets (c ∷ cs) = drop_last_bracket (if c == 91 then cs else c ∷ cs)

-- `host.split(".")`
unfoldable pub split_dots : Text → List Text
split_dots [] = [] ∷ []
split_dots (c ∷ cs) =
    let parts = split_dots cs in
    if c == 46 then [] ∷ parts else elim parts [ [] ↦ (c ∷ []) ∷ [] | p ∷ ps ↦ (c ∷ p) ∷ ps ]

abbrev pub is_digit : ℕ → Bool
is_digit c = leb 48 c && leb c 57

-- `[0-9a-f]` with the flag `i`
abbrev pub is_hex : ℕ → Bool
is_hex c = is_digit c || (leb 97 c && leb c 102) || (leb 65 c && leb c 70)

-- A letter in either case, by its small form.
abbrev pub is_letter : ℕ → ℕ → Bool
is_letter small c = c == small || c + 32 == small

-- A pattern of one unit after another at the start of a text.
unfoldable pub begins : List (ℕ → Bool) → Text → Bool
begins [] text = true
begins (t ∷ ts) [] = false
begins (t ∷ ts) (c ∷ cs) = let rest = begins ts cs in t c && rest

unfoldable pub are_digits : Text → Bool
are_digits [] = true
are_digits (c ∷ cs) = let rest = are_digits cs in is_digit c && rest

-- `\d+`
abbrev pub is_number : Text → Bool
is_number [] = false
is_number (c ∷ cs) = are_digits (c ∷ cs)

-- `\d+\.\d+\.\d+\.\d+`
unfoldable pub is_dotted : List Text → Bool
unfolding are_digits
is_dotted (a ∷ b ∷ c ∷ d ∷ []) = is_number a && is_number b && is_number c && is_number d
is_dotted _ = false

abbrev pub is_colon : ℕ → Bool
is_colon c = c == 58

-- `::ffff:`
abbrev pub mapped_prefix : List (ℕ → Bool)
mapped_prefix =
    is_colon
    ∷ is_colon
    ∷ is_letter 102
    ∷ is_letter 102
    ∷ is_letter 102
    ∷ is_letter 102
    ∷ is_colon
    ∷ []

-- The IPv4 address of `/^::ffff:(\d+\.\d+\.\d+\.\d+)$/i`
unfoldable pub mapped_address : Text → Option Text
unfolding begins split_dots is_dotted
mapped_address host =
    if begins mapped_prefix host && is_dotted (split_dots (drop 7 host))
    then some (drop 7 host)
    else none

-- `/^f[cd][0-9a-f]:/i`
abbrev pub unique_local : List (ℕ → Bool)
unique_local = is_letter 102 ∷ (λ c. is_letter 99 c || is_letter 100 c) ∷ is_hex ∷ is_colon ∷ []

-- `/^fe[89ab][0-9a-f]:/i`
abbrev pub link_local : List (ℕ → Bool)
link_local =
    is_letter 102
    ∷ is_letter 101
    ∷ (λ c. c == 56 || c == 57 || is_letter 97 c || is_letter 98 c)
    ∷ is_hex
    ∷ is_colon
    ∷ []

-- `/^ff[0-9a-f]{2}:/i`
abbrev pub multicast : List (ℕ → Bool)
multicast = is_letter 102 ∷ is_letter 102 ∷ is_hex ∷ is_hex ∷ is_colon ∷ []

unfoldable pub are_private_octets : List (Option ℕ) → Bool
are_private_octets (some a ∷ some b ∷ some c ∷ some d ∷ []) =
    leb a 255
    && leb b 255
    && leb c 255
    && leb d 255
    && (a == 0
        || a == 10
        || a == 127
        || (a == 169 && b == 254)
        || (a == 172 && leb 16 b && leb b 31)
        || (a == 192 && b == 168)
        || leb 224 a)
are_private_octets _ = false

-- The address in JavaScript: its protocol is "https:", it has a user name or a password, and its
-- `hostname.toLowerCase()`.
pub record Url : Type 0 where
  pub is_https : Bool
  pub has_credentials : Bool
  pub hostname : Text

-- `localhost`, and the ends `.localhost`, `.local` and `.internal`
abbrev pub localhost : Text
localhost = 108 ∷ 111 ∷ 99 ∷ 97 ∷ 108 ∷ 104 ∷ 111 ∷ 115 ∷ 116 ∷ []

abbrev pub dot_local : Text
dot_local = 46 ∷ 108 ∷ 111 ∷ 99 ∷ 97 ∷ 108 ∷ []

abbrev pub dot_internal : Text
dot_internal = 46 ∷ 105 ∷ 110 ∷ 116 ∷ 101 ∷ 114 ∷ 110 ∷ 97 ∷ 108 ∷ []

unfoldable pub ends_with : Text → Text → Bool
unfolding same_text
ends_with end text =
    leb (length end) (length text) && same_text (drop (length text - length end) text) end

-- `replace(/\.$/, "")`
unfoldable pub drop_last_dot : Text → Text
drop_last_dot [] = []
drop_last_dot (c ∷ []) = if c == 46 then [] else c ∷ []
drop_last_dot (c ∷ d ∷ ds) = c ∷ drop_last_dot (d ∷ ds)

module _ (number_of : Text → Option ℕ) where
  -- `isPrivateLiteralAddress` of an address that is not a mapped one, without its brackets
  unfoldable pub is_private_host : Text → Bool
  unfolding same_text begins are_private_octets split_dots
  is_private_host host =
      same_text host (58 ∷ 58 ∷ [])
      || same_text host (58 ∷ 58 ∷ 49 ∷ [])
      || begins unique_local host
      || begins link_local host
      || begins multicast host
      || are_private_octets (map number_of (split_dots host))

  -- What it calls itself with is neither mapped nor in brackets.
  unfoldable pub is_private_literal_address : Text → Bool
  unfolding without_brackets mapped_address is_private_host
  is_private_literal_address hostname =
      let host = without_brackets hostname in
      elim (mapped_address host) [
        | some address ↦ is_private_host address
        | none ↦ is_private_host host
      ]

  -- `assertSafeMCPEndpoint`, of the URL that the endpoint is if it is one
  unfoldable pub is_safe_endpoint : Option Url → Bool
  unfolding is_private_literal_address ends_with drop_last_dot same_text
  is_safe_endpoint none = false
  is_safe_endpoint (some url) =
      let host = drop_last_dot url.hostname in
      not (
        not url.is_https
        || url.has_credentials
        || same_text host localhost
        || ends_with (46 ∷ localhost) host
        || ends_with dot_local host
        || ends_with dot_internal host
        || is_private_literal_address host)

  unfoldable pub public_addresses : List Text → List Text
  unfolding is_private_literal_address
  public_addresses [] = []
  public_addresses (a ∷ rest_of) =
      let rest = public_addresses rest_of in if is_private_literal_address a then rest else a ∷ rest

  unfoldable pub public_mcp_addresses : List Text → Result (List Text)
  unfolding public_addresses
  public_mcp_addresses addresses = elim (public_addresses addresses) [
    | [] ↦ threw (mcp_error "mcp_endpoint_forbidden")
    | a ∷ others ↦ ok (a ∷ others)
  ]

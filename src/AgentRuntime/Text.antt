-- ===== src/AgentRuntime/Text.antt =====
-- The text functions of apps/agent-runtime/src/runtime.ts. A text is the list of its code points,
-- which a `for ... of` goes through.
pub mod Escape
pub mod Split
use comamessenger.Prelude.{
  ℕ, ◌+◌, List, [], ◌∷◌, ◌++◌, Bool, true, false, ltb, leb, ◌==◌, if◌then◌else◌, take,
}

abbrev pub Text : Type 0
Text = List ℕ

-- The bytes of a code point as `TextEncoder` writes it; a lone surrogate becomes U+FFFD, of 3 bytes.
unfoldable pub utf8_size : ℕ → ℕ
utf8_size c = if ltb c 128 then 1 else if ltb c 2048 then 2 else if ltb c 65536 then 3 else 4

-- `new TextEncoder().encode(value).byteLength`
unfoldable pub byte_length : Text → ℕ
unfolding utf8_size
byte_length [] = 0
byte_length (c ∷ cs) = utf8_size c + byte_length cs

-- `value.replaceAll(...)` of one character
unfoldable pub replace_all : ℕ → Text → Text → Text
replace_all old new [] = []
replace_all old new (c ∷ cs) =
    let rest = replace_all old new cs in if c == old then new ++ rest else c ∷ rest

abbrev pub ampersand : ℕ
ampersand = 38

abbrev pub less_than : ℕ
less_than = 60

abbrev pub greater_than : ℕ
greater_than = 62

-- `&amp;`, `&lt;` and `&gt;`
abbrev pub amp_entity : Text
amp_entity = 38 ∷ 97 ∷ 109 ∷ 112 ∷ 59 ∷ []

abbrev pub lt_entity : Text
lt_entity = 38 ∷ 108 ∷ 116 ∷ 59 ∷ []

abbrev pub gt_entity : Text
gt_entity = 38 ∷ 103 ∷ 116 ∷ 59 ∷ []

unfoldable pub escape_untrusted_content : Text → Text
unfolding replace_all
escape_untrusted_content value =
    replace_all greater_than gt_entity
      (replace_all less_than lt_entity (replace_all ampersand amp_entity value))

unfoldable pub escape_trusted_configuration : Text → Text
unfolding replace_all
escape_trusted_configuration value =
    replace_all greater_than gt_entity
      (replace_all less_than lt_entity (replace_all ampersand amp_entity value))

-- `safeJSON` of a value, given the text of `JSON.stringify`. The bound counts UTF-16 units, and so
-- does this list.
unfoldable pub safe_json : Text → Text
unfolding escape_untrusted_content
safe_json encoded = escape_untrusted_content (take 262144 encoded)

abbrev pub is_empty : Text → Bool
is_empty [] = true
is_empty (c ∷ cs) = false

abbrev pub max_bytes : ℕ
max_bytes = 8192

-- the loop of `splitStreamingDelta`, with `current`, `bytes` and `result` as they stand
unfoldable pub split_from : Text → ℕ → List Text → Text → List Text
unfolding utf8_size
split_from current bytes result [] = if is_empty current then result else result ++ current ∷ []
split_from current bytes result (c ∷ cs) =
    let apart = split_from (c ∷ []) (utf8_size c) (result ++ current ∷ []) cs in
    let together = split_from (current ++ c ∷ []) (bytes + utf8_size c) result cs in
    if ltb max_bytes (bytes + utf8_size c) then apart else together

unfoldable pub split_streaming_delta : Text → List Text
unfolding byte_length split_from
split_streaming_delta value =
    if leb (byte_length value) max_bytes then value ∷ [] else split_from [] 0 [] value

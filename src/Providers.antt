-- ===== src/Providers.antt =====
-- `readProviderSSE` of apps/agent-runtime/src/providers.ts. Texts are lists of UTF-16 units; a chunk is its
-- size in bytes with what the decoder makes of it. `parse` stands for `JSON.parse` with `objectValue`,
-- `is_error` for the test of a payload, and `trim_start` for that of a text.
pub mod Breaks
pub mod Chunks
pub mod Reading
pub mod Tests
use comamessenger.Prelude.Units.{Text, same_text}
use comamessenger.Prelude.{
  ℕ, zero, suc, ◌+◌, ◌-◌, List, [], ◌∷◌, ◌++◌, Bool, true, false, ◌&&◌, ◌||◌, Option, none, some,
  ltb, leb, ◌==◌, if◌then◌else◌, drop,
}
use comamessenger.AgentRuntime.Run.{Cause, provider_error}

-- Whether a unit stands at an index.
unfoldable pub is_at : ℕ → ℕ → Text → Bool
is_at index unit [] = false
is_at zero unit (c ∷ cs) = c == unit
is_at (suc index) unit (c ∷ cs) = is_at index unit cs

-- What a match of `\r?\n\r?\n` is long of which `n` units have matched, and from the start; 0 for none.
abbrev pub second_size : ℕ → Text → ℕ
second_size n text =
    if is_at n 10 text then n + 1 else if is_at n 13 text && is_at (n + 1) 10 text then n + 2 else 0

unfoldable pub break_size : Text → ℕ
unfolding is_at
break_size text =
    if is_at 0 10 text
    then second_size 1 text
    else if is_at 0 13 text && is_at 1 10 text
    then second_size 2 text
    else 0

-- A unit in front of the first of the events, or of the rest if there is none.
abbrev pub glue : ℕ → List Text × Text → List Text × Text
glue c ([], rest) = ([], c ∷ rest)
glue c (event ∷ events, rest) = ((c ∷ event) ∷ events, rest)

-- `buffer.split(/\r?\n\r?\n/)`, with what `pop` takes as the second part. The first argument is how many
-- units of a match are still to be passed over.
unfoldable pub cut : ℕ → Text → List Text × Text
unfolding break_size
cut skip [] = ([], [])
cut (suc skip) (c ∷ cs) = cut skip cs
cut zero (c ∷ cs) = elim (break_size (c ∷ cs)) [
  | zero ↦ glue c (cut 0 cs)
  | suc skip ↦ let (events, rest) = cut skip cs in ([] ∷ events, rest)
]

-- `event.split(/\r?\n/)`
unfoldable pub lines_of : Text → List Text
unfolding is_at
lines_of [] = [] ∷ []
lines_of (c ∷ cs) =
    let lines = lines_of cs in
    if c == 10
    then [] ∷ lines
    else if c == 13 && is_at 0 10 cs
    then lines
    else elim lines [ [] ↦ (c ∷ []) ∷ [] | l ∷ ls ↦ (c ∷ l) ∷ ls ]

-- `line.startsWith("data:")`
abbrev pub is_data_line : Text → Bool
is_data_line l = is_at 0 100 l && is_at 1 97 l && is_at 2 116 l && is_at 3 97 l && is_at 4 58 l

-- The data that closes a stream, in brackets.
abbrev pub done_mark : Text
done_mark = 91 ∷ 68 ∷ 79 ∷ 78 ∷ 69 ∷ 93 ∷ []

-- `join("\n")`
unfoldable pub join_lines : List Text → Text
join_lines [] = []
join_lines (l ∷ []) = l
join_lines (l ∷ m ∷ ms) = l ++ 10 ∷ join_lines (m ∷ ms)

abbrev pub max_stream_bytes : ℕ
max_stream_bytes = 16777216

module _ {P : Type 0} (parse : Text → Option P) (is_error : P → Bool)
    (trim_start : Text → Text) where
  unfoldable pub data_lines : List Text → List Text
  unfolding is_at
  data_lines [] = []
  data_lines (l ∷ ls) =
      let rest = data_lines ls in if is_data_line l then trim_start (drop 5 l) ∷ rest else rest

  abbrev pub is_skipped : Text → Bool
  is_skipped value = same_text value [] || same_text value done_mark

  unfoldable pub data_of : Text → Text
  unfolding lines_of data_lines join_lines
  data_of event = join_lines (data_lines (lines_of event))

  -- The loop over the events: the payloads that are yielded, and what is thrown if it is.
  unfoldable pub deliver : List Text → List P × Option Cause
  unfolding data_of same_text
  deliver [] = ([], none)
  deliver (event ∷ events) =
      let rest = deliver events in
      if is_skipped (data_of event) then rest else elim (parse (data_of event)) [
        | none ↦ ([], some (provider_error false "provider_invalid_response"))
        | some payload ↦
            if is_error payload
            then ([], some (provider_error true "provider_error"))
            else (payload ∷ rest.0, rest.1)
      ]

  -- What is yielded behind what has been, unless something was thrown.
  abbrev pub followed : List P × Option Cause → List P × Option Cause → List P × Option Cause
  followed (payloads, some cause) later = (payloads, some cause)
  followed (payloads, none) later = (payloads ++ later.0, later.1)

  -- The loop over the chunks, with `bytes` and `buffer` as they stand.
  unfoldable pub read_chunks : ℕ → Text → List (ℕ × Text) → List P × Option Cause
  unfolding cut deliver
  read_chunks bytes buffer [] = ([], none)
  read_chunks bytes buffer ((size, text) ∷ chunks) =
      let (events, rest) = cut 0 (buffer ++ text) in
      let later = read_chunks (bytes + size) rest chunks in
      if ltb max_stream_bytes (bytes + size)
      then ([], some (provider_error false "provider_output_too_large"))
      else followed (deliver events) later

  unfoldable pub read_provider_sse : List (ℕ × Text) → List P × Option Cause
  unfolding read_chunks
  read_provider_sse chunks = read_chunks 0 [] chunks

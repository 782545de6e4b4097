-- ===== src/Providers/Tests.antt =====
-- A stream of two events in three chunks.
use comamessenger.Prelude.Units.{Text}
use comamessenger.Prelude.{
  ℕ, ◌≡◌, refl, List, [], ◌∷◌, ◌++◌, Bool, false, Option, some, none, arith,
}
use comamessenger.Providers.{cut, deliver, read_provider_sse, done_mark}
use comamessenger.Providers.Reading.{text_of, read_provider_sse_lem}

-- `data:`
abbrev field : Text
field = 100 ∷ 97 ∷ 116 ∷ 97 ∷ 58 ∷ []

abbrev chunks : List (ℕ × Text)
chunks =
    (7, field ++ 49 ∷ 10 ∷ [])
    ∷ (3, 10 ∷ 100 ∷ 97 ∷ [])
    ∷ (8, 116 ∷ 97 ∷ 58 ∷ 50 ∷ 13 ∷ 10 ∷ 13 ∷ [])
    ∷ (16, 10 ∷ (field ++ (done_mark ++ 10 ∷ 10 ∷ [])))
    ∷ []

abbrev as_text : Text → Option Text
as_text t = some t

abbrev never : Text → Bool
never t = false

abbrev same : Text → Text
same t = t

reads_two : read_provider_sse as_text never same chunks ≡ ((49 ∷ []) ∷ (50 ∷ []) ∷ [], none)
unfolding read_provider_sse
reads_two = refl

read_provider_sse_lem_example :
    read_provider_sse as_text never same chunks
    ≡ deliver as_text never same (cut 0 (text_of chunks)).0
read_provider_sse_lem_example = read_provider_sse_lem as_text never same chunks (omega arith)

-- ===== src/Mentions.antt =====
-- packages/core/src/mentions.ts. A text is the list of its UTF-16 units, which `length`, `slice` and the
-- regular expression count.
pub mod Scan
pub mod Chain
pub mod RoundTrip
pub mod Edits
pub mod Common
pub mod Presence
pub mod Updates
pub mod Inserts
pub mod Tests
use comamessenger.Prelude.Units.{Text, same_text, slice}
use comamessenger.Prelude.{
  ℕ, zero, suc, ◌+◌, ◌-◌, List, [], ◌∷◌, ◌++◌, Bool, true, false, ◌&&◌, ◌||◌, Option, none, some,
  map, ltb, leb, ◌==◌, if◌then◌else◌, length, take, drop, ◌>>=◌,
}

pub record MentionReference : Type 0 where
  pub actor_id : Text
  pub label : Text
  pub start : ℕ
  pub end : ℕ

pub record MentionDraft : Type 0 where
  pub text : Text
  pub mentions : List MentionReference

-- a match of `mentionPattern`, with the text between the match before and this one
pub record Match : Type 0 where
  pub before : Text
  pub name : Text
  pub id : Text

-- `[0-9a-f-]` with the flag `i`
abbrev pub is_id_char : ℕ → Bool
is_id_char c =
    (leb 48 c && leb c 57) || (leb 97 c && leb c 102) || (leb 65 c && leb c 70) || c == 45

-- One unit that the pattern names.
unfoldable pub expect : ℕ → Text → Option Text
expect c [] = none
expect c (d ∷ ds) = if d == c then some ds else none

-- `[^\]]+` takes all that it can: what stands behind it is a bracket or the end.
unfoldable pub span_label : Text → Text × Text
span_label [] = ([], [])
span_label (c ∷ cs) =
    let (label, rest) = span_label cs in if c == 93 then ([], c ∷ cs) else (c ∷ label, rest)

-- `[0-9a-f-]{n}`
unfoldable pub take_id : ℕ → Text → Option (Text × Text)
take_id zero text = some ([], text)
take_id (suc n) [] = none
take_id (suc n) (c ∷ cs) =
    let rest = take_id n cs in
    if is_id_char c
    then elim rest [ none ↦ none | some found ↦ some (c ∷ found.0, found.1) ]
    else none

unfoldable pub take_label : Text → Option (Text × Text)
unfolding span_label
take_label text =
    let (label, rest) = span_label text in elim label [ [] ↦ none | c ∷ cs ↦ some (c ∷ cs, rest) ]

-- The pattern at the start of a text: the label, the identifier and what follows.
unfoldable pub match_here : Text → Option (Text × Text × Text)
unfolding expect take_label take_id
match_here text = do
  at ← expect 64 text
  bracket ← expect 91 at
  label ← take_label bracket
  closed ← expect 93 label.1
  paren ← expect 40 closed
  id ← take_id 36 paren
  rest ← expect 41 id.1
  some (label.0, id.0, rest)

-- `matchAll`: the matches one after another, leftmost first, and the text behind the last. The first
-- argument is how many units of the match before are still to be passed over.
unfoldable pub match_all : ℕ → Text → Text → List Match × Text
unfolding match_here
match_all skip before [] = ([], before)
match_all (suc skip) before (c ∷ cs) = match_all skip before cs
match_all zero before (c ∷ cs) = elim (match_here (c ∷ cs)) [
  | none ↦ match_all 0 (before ++ c ∷ []) cs
  | some (label, id, rest) ↦
      let (matches, tail) = match_all (length label + length id + 4) [] cs in
      (record { before = before; name = label; id = id } ∷ matches, tail)
]

-- the loop of `decodeMentions`, with `text` as it stands
unfoldable pub decode_matches : Text → List Match → Text × List MentionReference
decode_matches text [] = (text, [])
decode_matches text (m ∷ ms) =
    let visible = 64 ∷ m.name in
    let start = length (text ++ m.before) in
    let (whole, mentions) = decode_matches ((text ++ m.before) ++ visible) ms in
    (
      whole,
      record { actor_id = m.id; label = m.name; start = start; end = start + length visible }
          ∷ mentions,
    )

unfoldable pub decode_mentions : Text → MentionDraft
unfolding match_all decode_matches
decode_mentions source =
    let (matches, tail) = match_all 0 [] source in
    let (text, mentions) = decode_matches [] matches in
    record { text = text ++ tail; mentions = mentions }

-- `sort((left, right) => left.start - right.start)`, which is stable
unfoldable pub insert_by_start : MentionReference → List MentionReference → List MentionReference
insert_by_start m [] = m ∷ []
insert_by_start m (n ∷ ns) =
    let rest = insert_by_start m ns in if leb m.start n.start then m ∷ n ∷ ns else n ∷ rest

unfoldable pub sort_by_start : List MentionReference → List MentionReference
unfolding insert_by_start
sort_by_start [] = []
sort_by_start (m ∷ ms) = insert_by_start m (sort_by_start ms)

-- the test of `normalizedReferences` behind a reference that ends at `previous`, which is 0 for the first
unfoldable pub is_normal : Text → ℕ → MentionReference → Bool
unfolding slice same_text
is_normal text previous m =
    leb m.end (length text)
    && ltb m.start m.end
    && same_text (slice m.start m.end text) (64 ∷ m.label)
    && leb previous m.start

unfoldable pub keep_normal : Text → ℕ → List MentionReference → List MentionReference
unfolding is_normal
keep_normal text previous [] = []
keep_normal text previous (m ∷ ms) =
    let rest = keep_normal text m.end ms in if is_normal text previous m then m ∷ rest else rest

unfoldable pub normalized_references : MentionDraft → List MentionReference
unfolding sort_by_start keep_normal
normalized_references draft = keep_normal draft.text 0 (sort_by_start draft.mentions)

-- `@[${label}](${id})`
abbrev pub mention_source : Text → Text → Text
mention_source label id = 64 ∷ 91 ∷ (label ++ 93 ∷ 40 ∷ (id ++ 41 ∷ []))

-- the loop of `encodeMentions` from `cursor`, and what follows it
unfoldable pub encode_from : Text → ℕ → List MentionReference → Text
unfolding slice
encode_from text cursor [] = drop cursor text
encode_from text cursor (m ∷ ms) =
    slice cursor m.start text ++ (mention_source m.label m.actor_id ++ encode_from text m.end ms)

unfoldable pub encode_mentions : MentionDraft → Text
unfolding normalized_references encode_from
encode_mentions draft = encode_from draft.text 0 (normalized_references draft)

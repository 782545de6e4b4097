-- ===== src/Mentions/Edits.antt =====
-- `updateMentionText`, `insertMention` and `mentionedActorIDs` of packages/core/src/mentions.ts.
use comamessenger.Prelude.{
  ℕ, zero, suc, ◌+◌, ◌-◌, List, [], ◌∷◌, ◌++◌, Bool, true, false, ◌&&◌, ◌||◌, Option, none, some,
  map, ltb, leb, ◌==◌, if◌then◌else◌, length,
}
use comamessenger.Mentions.{MentionReference, MentionDraft, sort_by_start, decode_mentions}
use comamessenger.Prelude.Units.{Text, same_text, slice}

-- The first loop of `updateMentionText`, which counts the units that both texts begin with.
unfoldable pub common_prefix : Text → Text → ℕ
common_prefix [] text = 0
common_prefix (c ∷ cs) [] = 0
common_prefix (c ∷ cs) (d ∷ ds) = let rest = common_prefix cs ds in if c == d then suc rest else 0

-- `text[index]`
unfoldable pub unit_at : ℕ → Text → Option ℕ
unit_at index [] = none
unit_at zero (c ∷ cs) = some c
unit_at (suc index) (c ∷ cs) = unit_at index cs

abbrev pub same_unit : Option ℕ → Option ℕ → Bool
same_unit (some c) (some d) = c == d
same_unit none none = true
same_unit _ _ = false

-- The second loop, which goes back over the units that both texts end with.
unfoldable pub common_suffix : ℕ → Text → Text → ℕ → ℕ → ℕ × ℕ
unfolding unit_at
common_suffix prefix old new (suc o) (suc n) =
    let further = common_suffix prefix old new o n in
    if ltb prefix (suc o) && ltb prefix (suc n) && same_unit (unit_at o old) (unit_at n new)
    then further
    else (suc o, suc n)
common_suffix prefix old new zero n = (zero, n)
common_suffix prefix old new (suc o) zero = (suc o, zero)

-- A reference that stays, moves or is dropped. `from + shift` is written as `from + new - old`.
unfoldable pub updated : ℕ → ℕ → ℕ → MentionReference → List MentionReference
updated prefix old_suffix new_suffix m =
    if leb m.end prefix
    then m ∷ []
    else if leb old_suffix m.start
    then record m {
      start = (m.start + new_suffix) - old_suffix;
      end = (m.end + new_suffix) - old_suffix;
    }
      ∷ []
    else []

unfoldable pub update_all : ℕ → ℕ → ℕ → List MentionReference → List MentionReference
unfolding updated
update_all prefix old_suffix new_suffix [] = []
update_all prefix old_suffix new_suffix (m ∷ ms) =
    updated prefix old_suffix new_suffix m ++ update_all prefix old_suffix new_suffix ms

unfoldable pub update_mention_text : MentionDraft → Text → MentionDraft
unfolding same_text common_prefix common_suffix update_all
update_mention_text previous text =
    let prefix = common_prefix previous.text text in
    let (old_suffix, new_suffix) =
      common_suffix prefix previous.text text (length previous.text) (length text) in
    if same_text text previous.text then previous else record {
      text = text;
      mentions = update_all prefix old_suffix new_suffix previous.mentions;
    }

-- `rawLabel.replace(/[\]\r\n]+/g, " ")`; the test says whether the unit before is replaced already.
unfoldable pub spaced : Bool → Text → Text
spaced within [] = []
spaced within (c ∷ cs) =
    let more = spaced true cs in
    let rest = spaced false cs in
    if c == 93 || c == 13 || c == 10 then (if within then more else 32 ∷ more) else c ∷ rest

-- A reference apart from what is replaced; one behind it moves by `shift`, with `added` units in the
-- place of `end - start`.
unfoldable pub keep_apart : ℕ → ℕ → ℕ → List MentionReference → List MentionReference
keep_apart start end added [] = []
keep_apart start end added (m ∷ ms) =
    let rest = keep_apart start end added ms in
    let moved = record m {
      start = (m.start + (start + added)) - end;
      end = (m.end + (start + added)) - end;
    } in
    if leb m.end start || leb end m.start
    then (if leb end m.start then moved else m) ∷ rest
    else rest

-- `trim` is that of a text.
unfoldable pub insert_mention : (Text → Text) → MentionDraft → ℕ → ℕ → Text → Text → MentionDraft
unfolding slice spaced keep_apart sort_by_start
insert_mention trim draft start end actor_id raw_label =
    let label = trim (spaced false raw_label) in
    let visible = 64 ∷ label in
    let mention : MentionReference = record {
      actor_id = actor_id;
      label = label;
      start = start;
      end = start + length visible;
    } in
    record {
      text =
          slice 0 start draft.text ++ (visible ++ (32 ∷ slice end (length draft.text) draft.text));
      mentions =
          sort_by_start (keep_apart start end (length visible + 1) draft.mentions ++ mention ∷ []);
    }

-- `[...new Set(ids)]`, with what is in the set already
unfoldable pub holds : Text → List Text → Bool
unfolding same_text
holds id [] = false
holds id (other ∷ ids) = let rest = holds id ids in same_text id other || rest

unfoldable pub distinct : List Text → List Text → List Text
unfolding holds
distinct seen [] = []
distinct seen (id ∷ ids) =
    let again = distinct seen ids in
    let rest = distinct (id ∷ seen) ids in if holds id seen then again else id ∷ rest

unfoldable pub mentioned_actor_ids : Text → List Text
unfolding distinct decode_mentions
mentioned_actor_ids source = distinct [] (map (λ m. m.actor_id) (decode_mentions source).mentions)

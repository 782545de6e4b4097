-- ===== src/Mentions/Chain.antt =====
-- Drafts of packages/core/src/mentions.ts whose references stand in order, each at its own text.
use comamessenger.Prelude.{
  ℕ, ◌+◌, ◌-◌, ◌≤◌, ◌<◌, ◌≡◌, refl, List, [], ◌∷◌, ◌++◌, true, arith, length, le→leb, drop-length,
  take-length,
}
use comamessenger.Mentions.{
  MentionReference, MentionDraft, insert_by_start, sort_by_start, is_normal, keep_normal,
  normalized_references,
}
use comamessenger.Prelude.Units.{Text, same_text, slice, same_text_refl}

-- The references from a position on: in order, disjoint and not empty, in the text, each with its label.
abbrev pub IsChain : Text → ℕ → List MentionReference → Type 0
IsChain text from [] = Unit
IsChain text from (m ∷ ms) =
    (from ≤ m.start)
    × (m.start < m.end)
    × (m.end ≤ length text)
    × (slice m.start m.end text ≡ 64 ∷ m.label)
    × IsChain text m.end ms

abbrev pub IsWellFormed : MentionDraft → Type 0
IsWellFormed draft = IsChain draft.text 0 draft.mentions

pub slice-middle :
    (before middle after : Text)
    → slice (length before) (length before + length middle) (before ++ (middle ++ after)) ≡ middle
unfolding slice
slice-middle before middle after =
    let width : (length before + length middle) - length before ≡ length middle = omega arith in
    rw (width, drop-length before (middle ++ after)) (take-length middle after)

sort_by_start-IsChain :
    (text : Text) (from : ℕ) (ms : List MentionReference)
    → IsChain text from ms
    → sort_by_start ms ≡ ms
unfolding sort_by_start insert_by_start
sort_by_start-IsChain text from [] h = refl
sort_by_start-IsChain text from (m ∷ []) h = refl
sort_by_start-IsChain text from (m ∷ n ∷ ns) (h1, h2, h3, h4, h5) =
    rw (sort_by_start-IsChain text m.end (n ∷ ns) h5) (
      let earlier : m.start ≤ n.start = omega (arith, h5.0) in
      rw (le→leb m.start n.start earlier) refl)

keep_normal-IsChain :
    (text : Text) (from : ℕ) (ms : List MentionReference)
    → IsChain text from ms
    → keep_normal text from ms ≡ ms
unfolding keep_normal is_normal
keep_normal-IsChain text from [] h = refl
keep_normal-IsChain text from (m ∷ ms) (h1, h2, h3, h4, h5) =
    let same : same_text (slice m.start m.end text) (64 ∷ m.label) ≡ true =
      rw h4 (same_text_refl (64 ∷ m.label)) in
    let rest = keep_normal-IsChain text m.end ms h5 in ground (arith, same, rest)

-- Nothing of a draft in order is sorted elsewhere or left out.
pub normalized_references_lem :
    (draft : MentionDraft) → IsWellFormed draft → normalized_references draft ≡ draft.mentions
unfolding normalized_references
normalized_references_lem draft h =
    rw (sort_by_start-IsChain draft.text 0 draft.mentions h)
      (keep_normal-IsChain draft.text 0 draft.mentions h)

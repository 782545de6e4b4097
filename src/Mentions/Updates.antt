-- ===== src/Mentions/Updates.antt =====
-- `updateMentionText` of packages/core/src/mentions.ts keeps the references of a draft at their text.
use comamessenger.Prelude.{
  All, if◌then◌else◌, ℕ, ◌+◌, ◌-◌, ◌≤◌, ◌<◌, ◌≡◌, refl, sym, ap, ◌∙◌, true, List, [], ◌∷◌, arith,
  inl, inr, Bool-cases, leb, length, drop, max, ◌⊎◌,
}
use comamessenger.Mentions.{MentionReference, MentionDraft}
use comamessenger.Prelude.Units.{Text, same_text, same_text_lem}
use comamessenger.Mentions.Edits.{
  common_prefix, common_suffix, updated, update_all, update_mention_text,
}
use comamessenger.Mentions.Presence.{Has, Has-append}
use comamessenger.Mentions.Chain.{IsChain, IsWellFormed}
use comamessenger.Mentions.Common.{
  IsCommonPrefix, IsCommonSuffix, common_prefix-IsCommonPrefix, common_suffix-IsCommonSuffix,
  slice_kept, slice_moved, in_new,
}

module _ (old new : Text) (prefix o n : ℕ) (begin : IsCommonPrefix prefix old new)
    (finish : IsCommonSuffix prefix old new (o, n)) where
  -- Where the references that are kept end, for those gone through that end at `from`.
  abbrev IsBehind : ℕ → ℕ → Type 0
  IsBehind from to = ((to ≤ from) ⊎ (prefix < from)) × (to + o ≤ max from o + n)

  update_all-IsChain :
      (from to : ℕ) (ms : List MentionReference)
      → IsBehind from to
      → IsChain old from ms
      → IsChain new to (update_all prefix o n ms)
  unfolding update_all updated
  update_all-IsChain from to [] behind h = tt
  update_all-IsChain from to (m ∷ ms) behind (h1, h2, h3, h4, h5) =
      let (p1, p2, p3) = begin in
      let (s1, s2, s3, s4, s5) = finish in
      elim (Bool-cases (leb m.end prefix)) [
        | inl e ↦ rw e (
          ground (arith, behind, h1, h2, e),
          h2,
          ground (arith, e, p2),
          slice_kept old new prefix o n begin finish m.start m.end (ground (arith, e)) ∙ h4,
          update_all-IsChain m.end m.end ms (inl (omega arith), ground (arith, e, s1, s2)) h5,
        )
        | inr e ↦ rw e (elim (Bool-cases (leb o m.start)) [
          | inl f ↦ rw f (
            ground (arith, behind, h1, f, s1),
            ground (arith, f, h2),
            in_new old new prefix o n begin finish m.end (ground (arith, f, h2)) h3,
            slice_moved old new prefix o n begin finish m.start m.end (ground (arith, f))
                  (ground (arith, h2))
                ∙ h4,
            update_all-IsChain m.end ((m.end + n) - o) ms
                (inr (ground (arith, f, h2, s1)), ground (arith, f, h2)) h5,
          )
          | inr f ↦ rw f (
              update_all-IsChain m.end to ms
                (inr (ground (arith, e)), ground (arith, behind, h1, h2)) h5)
        ])
      ]

-- A reference in front of what changed stays as it is.
update_all-Has :
    (prefix o n : ℕ) (m : MentionReference) (ms : List MentionReference)
    → m.end ≤ prefix
    → Has m ms
    → Has m (update_all prefix o n ms)
unfolding update_all updated
update_all-Has prefix o n m [] h x = absurd x
update_all-Has prefix o n m (k ∷ ms) h (inl e) =
    let within : leb k.end prefix ≡ true =
      ground (arith, h, ap (λ (r : MentionReference). r.end) e) in
    rw within (inl e)
update_all-Has prefix o n m (k ∷ ms) h (inr later) =
    Has-append m (updated prefix o n k) (update_all prefix o n ms)
      (update_all-Has prefix o n m ms h later)

-- The references that end within a prefix.
abbrev pub in_front : ℕ → List MentionReference → List MentionReference
in_front prefix [] = []
in_front prefix (m ∷ ms) = if leb m.end prefix then m ∷ in_front prefix ms else in_front prefix ms

in_front-Has :
    (prefix : ℕ) (ms ns : List MentionReference)
    → ((m : MentionReference) → m.end ≤ prefix → Has m ms → Has m ns)
    → All (λ m. Has m ns) (in_front prefix ms)
in_front-Has prefix [] ns h = tt
in_front-Has prefix (m ∷ ms) ns h = elim (Bool-cases (leb m.end prefix)) [
  | inl e ↦
      rw e (h m (ground (arith, e)) (inl refl), in_front-Has prefix ms ns (λ k b i. h k b (inr i)))
  | inr e ↦ rw e (in_front-Has prefix ms ns (λ k b i. h k b (inr i)))
]

-- When the text of a draft is edited whose references stand in order, each at its own text, so do the
-- references that are left, the text is the new one, and each reference in front of the first unit that
-- changed is left as it is.
pub update_mention_text-IsWellFormed :
    (draft : MentionDraft) (text : Text)
    → IsWellFormed draft
    → IsWellFormed (update_mention_text draft text)
      × ((update_mention_text draft text).text ≡ text)
      × All
          (λ m. Has m (update_mention_text draft text).mentions)
          (in_front (common_prefix draft.text text) draft.mentions)
unfolding update_mention_text
update_mention_text-IsWellFormed draft text h = elim (Bool-cases (same_text text draft.text)) [
  | inl e ↦ rw e (
    h,
    sym (same_text_lem text draft.text e),
    in_front-Has (common_prefix draft.text text) draft.mentions draft.mentions
        (λ m before here. here),
  )
  | inr e ↦ rw e (
      let prefix = common_prefix draft.text text in
      let ends = common_suffix prefix draft.text text (length draft.text) (length text) in
      let begin = common_prefix-IsCommonPrefix draft.text text in
      let finish =
        common_suffix-IsCommonSuffix prefix draft.text text (length draft.text) (length text)
          (begin.0, begin.1, omega arith, omega arith, nothing draft.text ∙ sym (nothing text)) in
      (
        update_all-IsChain draft.text text prefix ends.0 ends.1 begin finish 0 0 draft.mentions
            (inl (omega arith), omega arith) h,
        refl,
        in_front-Has prefix draft.mentions (update_all prefix ends.0 ends.1 draft.mentions)
            (λ m before here. update_all-Has prefix ends.0 ends.1 m draft.mentions before here),
      ))
]
  where
    nothing : (t : Text) → drop (length t) t ≡ []
    nothing [] = refl
    nothing (c ∷ cs) = nothing cs

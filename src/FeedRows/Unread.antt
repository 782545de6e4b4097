-- ===== src/FeedRows/Unread.antt =====
-- The mark of the first unread message in packages/core/src/feed.ts.
use comamessenger.Prelude.{
  ℕ, suc, ◌≤◌, ◌<◌, String, ◌≡◌, refl, inl, inr, some, Bool, false, ◌||◌, List, [], ◌∷◌, arith, ltb,
  if◌then◌else◌, All, Bool-cases,
}
use comamessenger.Wire.{Message}
use comamessenger.Store.Feed.{IsSorted}
use comamessenger.FeedRows.{FeedRow, rows_after, feed_rows}

unfoldable pub marks : List FeedRow → ℕ
marks [] = 0
marks (r ∷ rs) = let rest = marks rs in if r.first_unread then suc rest else rest

-- Some message is behind the anchor.
unfoldable pub has_unread : ℕ → List Message → Bool
has_unread anchor [] = false
has_unread anchor (m ∷ ms) = ltb anchor m.created_seq || has_unread anchor ms

module _ (time : String → ℕ) (day : String → String) where
  -- Behind a message past the anchor nothing is marked.
  marks_none :
      (anchor : ℕ) (p : Message) (ms : List Message)
      → anchor < p.created_seq
      → All (λ x. p.created_seq ≤ x.created_seq) ms
      → IsSorted ms
      → marks (rows_after time day anchor (some p) ms) ≡ 0
  unfolding rows_after marks
  marks_none anchor p [] h a s = refl
  marks_none anchor p (m ∷ ms) h (a, rest) (b, s) =
      ground (arith, marks_none anchor m ms (omega arith) b s)

  marks_after :
      (anchor : ℕ) (p : Message) (ms : List Message)
      → 0 < anchor
      → p.created_seq ≤ anchor
      → IsSorted ms
      → marks (rows_after time day anchor (some p) ms) ≡ (if has_unread anchor ms then 1 else 0)
  unfolding rows_after marks has_unread
  marks_after anchor p [] pos h s = refl
  marks_after anchor p (m ∷ ms) pos h (b, s) = elim (Bool-cases (ltb anchor m.created_seq)) [
    | inl e ↦ ground (arith, marks_none anchor m ms (ground arith) b s)
    | inr e ↦ ground (arith, marks_after anchor m ms pos (ground arith) s)
  ]

  -- With an anchor, the rows of messages in order of sequence number carry one mark if some message is
  -- behind the anchor, and none otherwise.
  pub marks-feed_rows :
      (messages : List Message) (anchor : ℕ)
      → 0 < anchor
      → IsSorted messages
      → marks (feed_rows time day messages anchor) ≡ (if has_unread anchor messages then 1 else 0)
  unfolding feed_rows marks has_unread
  marks-feed_rows [] anchor pos s = refl
  marks-feed_rows (m ∷ ms) anchor pos (b, s) = elim (Bool-cases (ltb anchor m.created_seq)) [
    | inl e ↦ ground (arith, marks_none anchor m ms (ground arith) b s)
    | inr e ↦ ground (arith, marks_after anchor m ms pos (ground arith) s)
  ]

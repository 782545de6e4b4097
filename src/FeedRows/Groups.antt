-- ===== src/FeedRows/Groups.antt =====
-- The groups of rows in packages/core/src/feed.ts.
use comamessenger.Prelude.{
  ℕ, String, ◌≡◌, refl, inl, inr, Option, none, some, true, false, List, [], ◌∷◌, map, arith, ap,
  eq_iff, Bool-cases,
}
use comamessenger.Wire.{Message}
use comamessenger.FeedRows.{FeedRow, feed_row, rows_after, feed_rows}

module _ (time : String → ℕ) (day : String → String) where
  -- The author and the day of the message are those of the head of its group.
  abbrev pub Continues : Option Message → Message → Type 0
  Continues none m = ⊥
  Continues (some head) m = (head.actor_id ≡ m.actor_id) × (day head.created_at ≡ day m.created_at)

  -- Each grouped row continues the last row before it that is not grouped, which shows the author.
  pub data IsGrouped : Option Message → List FeedRow → Type 0 where
    done : {head : Option Message} → IsGrouped head []
    grouped :
        {head : Option Message} {r : FeedRow} {rs : List FeedRow}
        → r.grouped ≡ true
        → Continues head r.message
        → IsGrouped head rs
        → IsGrouped head (r ∷ rs)
    alone :
        {head : Option Message} {r : FeedRow} {rs : List FeedRow}
        → r.grouped ≡ false
        → IsGrouped (some r.message) rs
        → IsGrouped head (r ∷ rs)

  feed_row_grouped :
      (anchor : ℕ) (head p m : Message)
      → (feed_row time day anchor (some p) m).grouped ≡ true
      → head.actor_id ≡ p.actor_id
      → day head.created_at ≡ day p.created_at
      → (head.actor_id ≡ m.actor_id) × (day head.created_at ≡ day m.created_at)
  unfolding feed_row
  feed_row_grouped anchor head p m g a d =
      ground (arith, eq_iff p.actor_id m.actor_id, eq_iff (day p.created_at) (day m.created_at))

  rows_after-IsGrouped :
      (anchor : ℕ) (head p : Message) (ms : List Message)
      → head.actor_id ≡ p.actor_id
      → day head.created_at ≡ day p.created_at
      → IsGrouped (some head) (rows_after time day anchor (some p) ms)
  unfolding rows_after
  rows_after-IsGrouped anchor head p [] a d = done
  rows_after-IsGrouped anchor head p (m ∷ ms) a d =
      elim (Bool-cases (feed_row time day anchor (some p) m).grouped) [
        | inl e ↦
            let same = feed_row_grouped anchor head p m e a d in
            grouped e same (rows_after-IsGrouped anchor head m ms same.0 same.1)
        | inr e ↦ alone e (rows_after-IsGrouped anchor m m ms refl refl)
      ]

  messages-rows_after :
      (anchor : ℕ) (p : Option Message) (ms : List Message)
      → map (λ r. r.message) (rows_after time day anchor p ms) ≡ ms
  unfolding rows_after
  messages-rows_after anchor p [] = refl
  messages-rows_after anchor p (m ∷ ms) = ap (◌∷◌ m) (messages-rows_after anchor (some m) ms)

  -- The rows show the given messages in their order; no first row is grouped; and every grouped row
  -- has the author and the day of the last row before it that is not grouped, the one that shows the
  -- author.
  pub feed_rows-IsGrouped :
      (messages : List Message) (anchor : ℕ)
      → (map (λ r. r.message) (feed_rows time day messages anchor) ≡ messages)
        × IsGrouped none (feed_rows time day messages anchor)
  unfolding feed_rows
  feed_rows-IsGrouped messages anchor = (messages-rows_after anchor none messages, first messages)
    where
      first : (ms : List Message) → IsGrouped none (rows_after time day anchor none ms)
      first [] = unfold rows_after in done
      first (m ∷ ms) =
          unfold rows_after in alone refl (rows_after-IsGrouped anchor m m ms refl refl)

-- ===== src/Mentions/Inserts.antt =====
-- `insertMention` of packages/core/src/mentions.ts puts a reference at its text, and keeps the others.
use mathlib.Core.List.{append_assoc}
use comamessenger.Prelude.{
  ℕ, suc, ◌+◌, ◌-◌, ◌≤◌, ◌<◌, ◌≡◌, refl, sym, subst, ap, ◌∙◌, List, [], ◌∷◌, ◌++◌, true, false,
  ◌||◌, arith, inl, inr, Bool-cases, ◌⊎◌, leb, le→leb, length, take, drop, drop-length,
  length-append, length-drop, length-take, take-length, take_all,
}
use comamessenger.Mentions.{MentionReference, MentionDraft, insert_by_start, sort_by_start}
use comamessenger.Prelude.Units.{Text, slice}
use comamessenger.Mentions.Edits.{spaced, keep_apart, insert_mention}
use comamessenger.Mentions.Chain.{IsChain, IsWellFormed, slice-middle}
use comamessenger.Mentions.Presence.{Has, Has-last, sort_by_start-Has}
use comamessenger.Mentions.Common.{IsCommonPrefix, IsCommonSuffix, slice_kept, slice_moved, in_new}

insert_by_start-IsChain :
    (text : Text) (m : MentionReference) (ms : List MentionReference)
    → m.start < m.end
    → IsChain text m.end ms
    → insert_by_start m ms ≡ m ∷ ms
unfolding insert_by_start
insert_by_start-IsChain text m [] h k = refl
insert_by_start-IsChain text m (n ∷ ns) h k =
    let earlier : m.start ≤ n.start = omega (arith, k.0) in rw (le→leb m.start n.start earlier) refl

module _ (old new : Text) (start end added : ℕ) (apart : start ≤ end) (wide : 0 < added)
    (begin : IsCommonPrefix start old new)
    (finish : IsCommonSuffix start old new (end, start + added)) (x : MentionReference)
    (at : x.start ≡ start) (sized : x.end + 1 ≡ start + added) (full : start < x.end)
    (fits : x.end ≤ length new) (shown : slice x.start x.end new ≡ 64 ∷ x.label) where
  -- The references behind the replaced text, moved, and the new one put in front of them.
  moved-IsChain :
      (from to : ℕ) (ms : List MentionReference)
      → end ≤ from
      → to + end ≤ from + (start + added)
      → IsChain old from ms
      → IsChain new to (keep_apart start end added ms)
        × (sort_by_start (keep_apart start end added ms ++ x ∷ [])
            ≡ x ∷ keep_apart start end added ms)
  unfolding keep_apart sort_by_start insert_by_start
  moved-IsChain from to [] far near h = (tt, refl)
  moved-IsChain from to (m ∷ ms) far near (h1, h2, h3, h4, h5) =
      let behind : leb end m.start ≡ true = ground (arith, far, h1) in
      let test : (leb m.end start || leb end m.start) ≡ true = ground (arith, behind) in
      let moved : MentionReference = record m {
        start = (m.start + (start + added)) - end;
        end = (m.end + (start + added)) - end;
      } in
      let (chain, order) = moved-IsChain m.end moved.end ms (omega arith) (omega arith) h5 in
      let later : leb moved.start x.start ≡ false = ground (arith, at, wide, far, h1) in
      rw (test, behind)
        (
          (
            omega arith,
            omega arith,
            in_new old new start end (start + added) begin finish m.end (omega arith) h3,
            slice_moved old new start end (start + added) begin finish m.start m.end (omega arith)
                  (omega arith)
                ∙ h4,
            chain,
          ),
          rw
              (
                order,
                later,
                insert_by_start-IsChain new moved (keep_apart start end added ms) (omega arith)
                    chain,
              )
              refl,
        )

  keep_apart-IsChain :
      (from to : ℕ) (ms : List MentionReference)
      → (to ≤ from) ⊎ (start < from)
      → to ≤ start
      → IsChain old from ms
      → IsChain new to (sort_by_start (keep_apart start end added ms ++ x ∷ []))
  unfolding keep_apart sort_by_start insert_by_start
  keep_apart-IsChain from to [] behind low h = (omega arith, omega arith, fits, shown, tt)
  keep_apart-IsChain from to (m ∷ ms) behind low (h1, h2, h3, h4, h5) =
      elim (Bool-cases (leb end m.start)) [
        | inl e ↦
            let (chain, order) =
              moved-IsChain end x.end (m ∷ ms) (omega arith) (omega arith)
                (ground (arith, e), h2, h3, h4, h5) in
            subst (IsChain new to) (sym order) (omega arith, omega arith, fits, shown, chain)
        | inr e ↦ elim (Bool-cases (leb m.end start)) [
          | inl f ↦
              let low_end : m.end ≤ start = ground (arith, f) in
              let kept = keep_apart-IsChain m.end m.end ms (inl (omega arith)) low_end h5 in
              rw (f, e, insert_by_start-IsChain new m _ h2 kept)
                (
                  ground (arith, behind, h1, h2, f),
                  h2,
                  ground (arith, f, begin.1),
                  slice_kept old new start end (start + added) begin finish m.start m.end low_end
                      ∙ h4,
                  kept,
                )
          | inr f ↦ rw (f, e) (keep_apart-IsChain m.end to ms (inr (ground (arith, f))) low h5)
        ]
      ]

-- The text with `visible` and a space in place of what stands from `start` to `end`.
abbrev replaced : Text → ℕ → ℕ → Text → Text
replaced old start end visible = take start old ++ (visible ++ (32 ∷ drop end old))

module _ (old : Text) (start end : ℕ) (apart : start ≤ end) (inside : end ≤ length old)
    (visible : Text) where
  in_front : length (take start old) ≡ start
  in_front = length-take start old (omega arith)

  replaced-length :
      length (replaced old start end visible) ≡ start + (length visible + 1) + (length old - end)
  replaced-length = omega (
    arith,
    in_front,
    length-append (take start old) (visible ++ (32 ∷ drop end old)),
    length-append visible (32 ∷ drop end old),
    length-drop end old,
  )

  replaced-IsCommonPrefix : IsCommonPrefix start old (replaced old start end visible)
  replaced-IsCommonPrefix = (
    omega arith,
    omega (arith, replaced-length),
    sym (
        ap (λ n. take n (replaced old start end visible)) (sym in_front)
        ∙ take-length (take start old) _),
  )

  replaced-IsCommonSuffix :
      IsCommonSuffix start old (replaced old start end visible) (end, start + (length visible + 1))
  replaced-IsCommonSuffix =
      let begun = take start old ++ (visible ++ 32 ∷ []) in
      let long : length begun ≡ start + (length visible + 1) = omega (
        arith,
        in_front,
        length-append (take start old) (visible ++ 32 ∷ []),
        length-append visible (32 ∷ []),
      ) in
      let whole : begun ++ drop end old ≡ replaced old start end visible =
        append_assoc (take start old) (visible ++ 32 ∷ []) (drop end old)
        ∙ ap (λ l. take start old ++ l) (append_assoc visible (32 ∷ []) (drop end old)) in
      (
        apart,
        omega arith,
        inside,
        omega (arith, replaced-length),
        sym (
            ap (λ n. drop n (replaced old start end visible)) (sym long)
            ∙ ap (drop (length begun)) (sym whole)
            ∙ drop-length begun (drop end old)),
      )

  slice-replaced : slice start (start + length visible) (replaced old start end visible) ≡ visible
  slice-replaced =
      ap (λ n. slice n (n + length visible) (replaced old start end visible)) (sym in_front)
      ∙ slice-middle (take start old) visible (32 ∷ drop end old)

  -- The pieces as the source slices them.
  slices :
      slice 0 start old ++ (visible ++ (32 ∷ slice end (length old) old))
      ≡ replaced old start end visible
  unfolding slice
  slices =
      let first : start - 0 ≡ start = omega arith in
      let last : take (length old - end) (drop end old) ≡ drop end old =
        ap (λ n. take n (drop end old)) (sym (length-drop end old)) ∙ take_all (drop end old) in
      rw (first, last) refl

-- The reference that is inserted.
abbrev pub inserted : (Text → Text) → ℕ → Text → Text → MentionReference
inserted trim start actor_id raw_label =
    let label = trim (spaced false raw_label) in
    record { actor_id = actor_id; label = label; start = start; end = start + suc (length label) }

-- A reference that is inserted in place of a part of the text is in the draft, and all of its
-- references stand in order, each at its own text, if they did so before.
pub insert_mention-IsWellFormed :
    (trim : Text → Text) (draft : MentionDraft) (start end : ℕ) (actor_id raw_label : Text)
    → start ≤ end
    → end ≤ length draft.text
    → IsWellFormed draft
    → IsWellFormed (insert_mention trim draft start end actor_id raw_label)
      × Has
          (inserted trim start actor_id raw_label)
          (insert_mention trim draft start end actor_id raw_label).mentions
unfolding insert_mention
insert_mention-IsWellFormed trim draft start end actor_id raw_label apart inside h =
    let label = trim (spaced false raw_label) in
    let visible = 64 ∷ label in
    let x = inserted trim start actor_id raw_label in
    let old = draft.text in
    let new = replaced old start end visible in
    let long = replaced-length old start end apart inside visible in
    (
      rw (slices old start end apart inside visible) (
          keep_apart-IsChain old new start end (length visible + 1) apart (omega arith)
            (replaced-IsCommonPrefix old start end apart inside visible)
            (replaced-IsCommonSuffix old start end apart inside visible) x refl (omega arith)
            (omega arith) (omega (arith, long)) (slice-replaced old start end apart inside visible)
            0 0 draft.mentions (inl (omega arith)) (omega arith) h),
      sort_by_start-Has x _ (Has-last x (keep_apart start end (length visible + 1) draft.mentions)),
    )

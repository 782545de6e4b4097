-- ===== src/Mentions/Common.antt =====
-- Two texts of packages/core/src/mentions.ts that begin and end alike.
use comamessenger.Prelude.{
  ℕ, zero, suc, ◌+◌, ◌-◌, ◌≤◌, ◌<◌, ◌≡◌, refl, sym, ap, ◌∙◌, [], ◌∷◌, true, ◌&&◌, arith, some, inl,
  inr, Bool-cases, ltb, leb, ◌==◌, length, take, drop, ==_iff, take-take, drop-take, drop-drop,
  length-drop,
}
use comamessenger.Prelude.Units.{Text, slice}
use comamessenger.Mentions.Edits.{common_prefix, unit_at, same_unit, common_suffix}

-- Two texts begin alike up to a position.
abbrev pub IsCommonPrefix : ℕ → Text → Text → Type 0
IsCommonPrefix n old new = (n ≤ length old) × (n ≤ length new) × (take n old ≡ take n new)

pub common_prefix-IsCommonPrefix : (old new : Text) → IsCommonPrefix (common_prefix old new) old new
unfolding common_prefix
common_prefix-IsCommonPrefix [] new = (omega arith, omega arith, refl)
common_prefix-IsCommonPrefix (c ∷ cs) [] = (omega arith, omega arith, refl)
common_prefix-IsCommonPrefix (c ∷ cs) (d ∷ ds) =
    let (h1, h2, h3) = common_prefix-IsCommonPrefix cs ds in
    elim (Bool-cases (c == d)) [
      | inl e ↦ rw (e, (==_iff c d).0 e) (omega arith, omega arith, ap (λ l. d ∷ l) h3)
      | inr e ↦ rw e (omega arith, omega arith, refl)
    ]

-- Two positions behind a common prefix from which the texts go on alike.
abbrev pub IsCommonSuffix : ℕ → Text → Text → ℕ × ℕ → Type 0
IsCommonSuffix prefix old new (o, n) =
    (prefix ≤ o) × (prefix ≤ n) × (o ≤ length old) × (n ≤ length new) × (drop o old ≡ drop n new)

drop_at : (n c : ℕ) (text : Text) → unit_at n text ≡ some c → drop n text ≡ c ∷ drop (suc n) text
unfolding unit_at
drop_at n c [] e = absurd (ground (arith, e))
drop_at zero c (d ∷ ds) e = ground (arith, e)
drop_at (suc n) c (d ∷ ds) e = drop_at n c ds e

unit_in : (n : ℕ) (text : Text) → n < length text → (c : ℕ) × (unit_at n text ≡ some c)
unfolding unit_at
unit_in n [] h = absurd (omega arith)
unit_in zero (c ∷ cs) h = (c, refl)
unit_in (suc n) (c ∷ cs) h = unit_in n cs (omega arith)

-- One step of the loop back.
back :
    (old new : Text) (o n : ℕ)
    → o < length old
    → n < length new
    → same_unit (unit_at o old) (unit_at n new) ≡ true
    → drop (suc o) old ≡ drop (suc n) new
    → drop o old ≡ drop n new
back old new o n ho hn same rest =
    let (c, e) = unit_in o old ho in
    let (d, f) = unit_in n new hn in
    let alike : c ≡ d =
      (==_iff c d).0
        (sym (ap (λ u. same_unit u (unit_at n new)) e ∙ ap (λ u. same_unit (some c) u) f) ∙ same) in
    drop_at o c old e ∙ rw (alike, rest) refl ∙ sym (drop_at n d new f)

pub common_suffix-IsCommonSuffix :
    (prefix : ℕ) (old new : Text) (o n : ℕ)
    → IsCommonSuffix prefix old new (o, n)
    → IsCommonSuffix prefix old new (common_suffix prefix old new o n)
unfolding common_suffix
common_suffix-IsCommonSuffix prefix old new zero n h = h
common_suffix-IsCommonSuffix prefix old new (suc o) zero h = h
common_suffix-IsCommonSuffix prefix old new (suc o) (suc n) h =
    elim (Bool-cases
      (ltb prefix (suc o) && ltb prefix (suc n) && same_unit (unit_at o old) (unit_at n new))) [
        | inl e ↦ rw e (common_suffix-IsCommonSuffix prefix old new o n (further e))
        | inr e ↦ rw e h
      ]
  where
    further :
        ltb prefix (suc o) && ltb prefix (suc n) && same_unit (unit_at o old) (unit_at n new) ≡ true
        → IsCommonSuffix prefix old new (o, n)
    further e =
        let (h1, h2, h3, h4, h5) = h in
        (
          ground (arith, e),
          ground (arith, e),
          omega arith,
          omega arith,
          back old new o n (omega arith) (omega arith) (ground (arith, e)) h5,
        )

-- A slice in front of a common prefix, and one behind a common suffix.
slice-take :
    (n first last : ℕ) (text : Text)
    → last ≤ n
    → slice first last (take n text) ≡ slice first last text
unfolding slice
slice-take n first last text h = elim (Bool-cases (leb first n)) [
  | inl e ↦
      let split : first + (n - first) ≡ n = ground (arith, e) in
      ap (λ k. take (last - first) (drop first (take k text))) (sym split)
      ∙ ap (take (last - first)) (drop-take first (n - first) text)
      ∙ take-take (last - first) (n - first) (drop first text) (omega arith)
  | inr e ↦ let empty : last - first ≡ 0 = ground (arith, e, h) in rw empty refl
]

slice-drop :
    (n first last : ℕ) (text : Text)
    → n ≤ first
    → slice first last text ≡ slice (first - n) (last - n) (drop n text)
unfolding slice
slice-drop n first last text h =
    let far : n + (first - n) ≡ first = omega arith in
    let wide : (last - n) - (first - n) ≡ last - first = omega arith in
    rw (wide, drop-drop (first - n) n text, far) refl

module _ (old new : Text) (prefix o n : ℕ) (begin : IsCommonPrefix prefix old new)
    (finish : IsCommonSuffix prefix old new (o, n)) where
  -- A reference in front of what changed.
  pub slice_kept : (first last : ℕ) → last ≤ prefix → slice first last new ≡ slice first last old
  slice_kept first last h =
      sym (slice-take prefix first last new h)
      ∙ ap (slice first last) (sym begin.2)
      ∙ slice-take prefix first last old h

  -- A reference behind it.
  pub slice_moved :
      (first last : ℕ)
      → o ≤ first
      → first ≤ last
      → slice ((first + n) - o) ((last + n) - o) new ≡ slice first last old
  slice_moved first last h k =
      let from : ((first + n) - o) - n ≡ first - o = omega arith in
      let to : ((last + n) - o) - n ≡ last - o = omega arith in
      slice-drop n ((first + n) - o) ((last + n) - o) new (omega arith)
      ∙ rw (from, to, sym finish.4) refl
      ∙ sym (slice-drop o first last old h)

  pub in_new : (last : ℕ) → o ≤ last → last ≤ length old → (last + n) - o ≤ length new
  in_new last h k =
      let (h1, h2, h3, h4, h5) = finish in
      let alike : length old - o ≡ length new - n =
        sym (length-drop o old) ∙ ap length h5 ∙ length-drop n new in
      omega (arith, alike)

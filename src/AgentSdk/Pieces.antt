-- ===== src/AgentSdk/Pieces.antt =====
-- The pieces that `DeltaCoalescer` of packages/agent-sdk/src/index.ts emits.
use mathlib.Core.List.{append_assoc, append-nil}
use comamessenger.Prelude.{
  ℕ, ◌≤◌, ◌≡◌, refl, sym, ap, ◌∙◌, inl, inr, true, [], ◌∷◌, ◌++◌, arith, ltb, if◌then◌else◌,
  Bool-cases, All, All-append,
}
use comamessenger.AgentRuntime.Text.{Text, byte_length, is_empty}
use comamessenger.AgentRuntime.Text.Split.{joined, joined-append, byte_length_one, utf8_size_bounds}
use comamessenger.AgentSdk.{DeltaCoalescer, flush, push_character, push_all, push, close}

module _ (max_bytes : ℕ) (room : 4 ≤ max_bytes) where
  abbrev pub Fits : Text → Type 0
  Fits p = byte_length p ≤ max_bytes

  flush_lem :
      (c : DeltaCoalescer)
      → Fits c.pending
      → (joined (flush c).1 ≡ c.pending) × All Fits (flush c).1
  unfolding flush
  flush_lem c h = by_pending c.pending h
    where
      by_pending :
          (p : Text)
          → Fits p
          → (joined (if is_empty p then [] else p ∷ []) ≡ p)
            × All Fits (if is_empty p then [] else p ∷ [])
      by_pending [] h = unfold joined in (refl, tt)
      by_pending (x ∷ xs) h = unfold joined in (append-nil (x ∷ xs), (h, tt))

  push_character_lem :
      (x : ℕ) (c : DeltaCoalescer)
      → Fits c.pending
      → (joined (push_character max_bytes x c).1 ++ (push_character max_bytes x c).0.pending
          ≡ c.pending ++ x ∷ [])
        × All Fits (push_character max_bytes x c).1
        × Fits (push_character max_bytes x c).0.pending
  unfolding push_character joined
  push_character_lem x c h = elim (Bool-cases (ltb max_bytes (byte_length (c.pending ++ x ∷ [])))) [
    | inl over ↦ rw over (
        let (j, f) = flush_lem c h in
        (ap (λ l. l ++ x ∷ []) j, f, omega (arith, byte_length_one x, utf8_size_bounds x)))
    | inr fits ↦ rw fits (refl, tt, ground arith)
  ]

  push_all_lem :
      (value : Text) (c : DeltaCoalescer)
      → Fits c.pending
      → (joined (push_all max_bytes value c).1 ++ (push_all max_bytes value c).0.pending
          ≡ c.pending ++ value)
        × All Fits (push_all max_bytes value c).1
        × Fits (push_all max_bytes value c).0.pending
  unfolding push_all joined
  push_all_lem [] c h = (sym (append-nil c.pending), tt, h)
  push_all_lem (x ∷ value) c h =
      let (c', emitted) = push_character max_bytes x c in
      let (j₁, f₁, p₁) = push_character_lem x c h in
      let (j₂, f₂, p₂) = push_all_lem value c' p₁ in
      let (last, others) = push_all max_bytes value c' in
      (
        ap (λ l. l ++ last.pending) (joined-append emitted others)
            ∙ append_assoc (joined emitted) (joined others) last.pending
            ∙ ap (λ l. joined emitted ++ l) j₂
            ∙ sym (append_assoc (joined emitted) c'.pending value)
            ∙ ap (λ l. l ++ value) j₁
            ∙ append_assoc c.pending (x ∷ []) value,
        All-append Fits emitted others f₁ f₂,
        p₂,
      )

  -- With a bound of four bytes at least, no piece that a push or the closing behind it emits exceeds
  -- the bound, and the pieces make up, in order, what was pending and what is pushed.
  pub push-close :
      (value : Text) (c : DeltaCoalescer)
      → byte_length c.pending ≤ max_bytes
      → (joined ((push max_bytes value c).1 ++ (close (push max_bytes value c).0).1)
          ≡ c.pending ++ value)
        × All Fits ((push max_bytes value c).1 ++ (close (push max_bytes value c).0).1)
  unfolding push close
  push-close [] c h = let (j, f) = flush_lem c h in (j ∙ sym (append-nil c.pending), f)
  push-close (x ∷ value) c h =
      let (j, f, p) = push_all_lem (x ∷ value) c h in
      let (last, emitted) = push_all max_bytes (x ∷ value) c in
      let (j', f') = flush_lem (record last { timer = true }) p in
      (
        joined-append emitted (flush (record last { timer = true })).1
            ∙ ap (λ l. joined emitted ++ l) j'
            ∙ j,
        All-append Fits emitted (flush (record last { timer = true })).1 f f',
      )

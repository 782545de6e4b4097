-- ===== src/Providers/Chunks.antt =====
-- What apps/agent-runtime/src/providers.ts reads of a stream does not depend on its chunks.
use comamessenger.Prelude.Units.{Text}
use comamessenger.Prelude.{
  ℕ, zero, suc, ◌≤◌, ◌≡◌, refl, sym, ap, ◌∙◌, List, [], ◌∷◌, ◌++◌, arith, inl, inr, length,
}
use comamessenger.Providers.{break_size, glue, cut}
use comamessenger.Providers.Breaks.{break_size_kept, break_size_stable, break_size_bound, ℕ-cases}

-- The events of what is read first, in front of those that its rest begins.
abbrev pub behind : List Text × Text → Text → List Text × Text
behind (events, rest) u = let (more, last) = cut 0 (rest ++ u) in (events ++ more, last)

pick_none :
    (n : ℕ) (x : List Text × Text) (f : ℕ → List Text × Text)
    → n ≡ 0
    → (elim n [ zero ↦ x | suc k ↦ f k ]) ≡ x
pick_none zero x f e = refl
pick_none (suc k) x f e = absurd (omega arith)

pick_some :
    (n k : ℕ) (x : List Text × Text) (f : ℕ → List Text × Text)
    → n ≡ suc k
    → (elim n [ zero ↦ x | suc k ↦ f k ]) ≡ f k
pick_some zero k x f e = absurd (omega arith)
pick_some (suc n) k x f e = ap f (omega arith)

cut_none : (c : ℕ) (cs : Text) → break_size (c ∷ cs) ≡ 0 → cut 0 (c ∷ cs) ≡ glue c (cut 0 cs)
unfolding cut
cut_none c cs e = pick_none (break_size (c ∷ cs)) _ _ e

cut_some :
    (c k : ℕ) (cs : Text)
    → break_size (c ∷ cs) ≡ suc k
    → cut 0 (c ∷ cs) ≡ ([] ∷ (cut k cs).0, (cut k cs).1)
unfolding cut
cut_some c k cs e = pick_some (break_size (c ∷ cs)) k _ (λ k. ([] ∷ (cut k cs).0, (cut k cs).1)) e

glue_rest :
    (c : ℕ) (r : List Text × Text) → (glue c r).0 ≡ [] → (r.0 ≡ []) × ((glue c r).1 ≡ c ∷ r.1)
glue_rest c ([], rest) h = (refl, refl)
glue_rest c (e ∷ es, rest) h = absurd (ground (arith, h))

-- A rest that no event precedes is all the text.
rest_of_cut : (t : Text) → (cut 0 t).0 ≡ [] → (cut 0 t).1 ≡ t
unfolding cut
rest_of_cut [] h = refl
rest_of_cut (c ∷ cs) h = elim (ℕ-cases (break_size (c ∷ cs))) [
  | inl e ↦
      let (none_later, whole) =
        glue_rest c (cut 0 cs) (ap (λ r. r.0) (sym (cut_none c cs e)) ∙ h) in
      ap (λ r. r.1) (cut_none c cs e) ∙ whole ∙ ap (λ l. c ∷ l) (rest_of_cut cs none_later)
  | inr (k, e) ↦ absurd (ground (arith, sym (ap (λ r. r.0) (cut_some c k cs e)) ∙ h))
]

break_within : (c k : ℕ) (cs : Text) → break_size (c ∷ cs) ≡ suc k → k ≤ length cs
break_within c k cs e = omega (arith, e, break_size_bound (c ∷ cs))

-- A unit in front of a text that is gone on with.
glue-behind :
    (c : ℕ) (cs u : Text) (r : List Text × Text)
    → break_size (c ∷ cs) ≡ 0
    → cut 0 cs ≡ r
    → cut 0 (cs ++ u) ≡ behind r u
    → cut 0 (c ∷ (cs ++ u)) ≡ behind (glue c r) u
glue-behind c cs u ([], rest) none_here first ih =
    let whole : rest ≡ cs = ap (λ r. r.1) (sym first) ∙ rest_of_cut cs (ap (λ r. r.0) first) in
    rw whole refl
glue-behind c cs u (e ∷ es, rest) none_here first ih =
    cut_none c (cs ++ u) (break_size_stable c cs u e es (ap (λ r. r.0) first) none_here)
    ∙ ap (glue c) ih

pub cut-append :
    (skip : ℕ) (t u : Text) → skip ≤ length t → cut skip (t ++ u) ≡ behind (cut skip t) u
unfolding cut
cut-append zero [] u h = refl
cut-append (suc skip) [] u h = absurd (omega arith)
cut-append (suc skip) (c ∷ cs) u h = cut-append skip cs u (omega arith)
cut-append zero (c ∷ cs) u h = elim (ℕ-cases (break_size (c ∷ cs))) [
  | inl e ↦
      glue-behind c cs u (cut 0 cs) e refl (cut-append 0 cs u (omega arith))
      ∙ ap (λ r. behind r u) (sym (cut_none c cs e))
  | inr (k, e) ↦
      cut_some c k (cs ++ u) (break_size_kept (c ∷ cs) u k e)
      ∙ ap (λ r. ([] ∷ r.0, r.1)) (cut-append k cs u (break_within c k cs e))
      ∙ ap (λ r. behind r u) (sym (cut_some c k cs e))
]

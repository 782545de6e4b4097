-- ===== src/Providers/Breaks.antt =====
-- Where the events of a stream end in apps/agent-runtime/src/providers.ts, however its text is cut.
use comamessenger.Prelude.Units.{Text}
use comamessenger.Prelude.{
  ℕ, zero, suc, ◌≤◌, ◌<◌, ◌≡◌, refl, sym, ◌∙◌, List, [], ◌∷◌, ◌++◌, true, false, arith, inl, inr,
  ◌⊎◌, length,
}
use comamessenger.Providers.{is_at, break_size, glue, cut}

-- What stands in a text stands there with more behind it.
is_at-append : (i c : ℕ) (t u : Text) → is_at i c t ≡ true → is_at i c (t ++ u) ≡ true
unfolding is_at
is_at-append i c [] u e = absurd (ground (arith, e))
is_at-append zero c (d ∷ ds) u e = e
is_at-append (suc i) c (d ∷ ds) u e = is_at-append i c ds u e

is_at_within : (i c : ℕ) (t u : Text) → i < length t → is_at i c (t ++ u) ≡ is_at i c t
unfolding is_at
is_at_within i c [] u h = absurd (omega arith)
is_at_within zero c (d ∷ ds) u h = refl
is_at_within (suc i) c (d ∷ ds) u h = is_at_within i c ds u (omega arith)

one_unit : (i : ℕ) (t : Text) → is_at i 13 t ≡ true → is_at i 10 t ≡ false
unfolding is_at
one_unit i [] e = refl
one_unit zero (d ∷ ds) e = ground (arith, e)
one_unit (suc i) (d ∷ ds) e = one_unit i ds e

is_at_bound : (i c : ℕ) (t : Text) → is_at i c t ≡ true → i < length t
unfolding is_at
is_at_bound i c [] e = absurd (ground (arith, e))
is_at_bound zero c (d ∷ ds) e = omega arith
is_at_bound (suc i) c (d ∷ ds) e = omega (arith, is_at_bound i c ds e)

pub break_size_bound : (t : Text) → break_size t ≤ length t
unfolding break_size
break_size_bound t = ground (arith, is_at_bound 1 10 t, is_at_bound 2 10 t, is_at_bound 3 10 t)

-- A break stays one.
pub break_size_kept : (t u : Text) (k : ℕ) → break_size t ≡ suc k → break_size (t ++ u) ≡ suc k
unfolding break_size
break_size_kept t u k e = ground (
  arith,
  e,
  is_at-append 0 10 t u,
  is_at-append 0 13 t u,
  is_at-append 1 10 t u,
  is_at-append 1 13 t u,
  is_at-append 2 10 t u,
  is_at-append 2 13 t u,
  is_at-append 3 10 t u,
  one_unit 0 (t ++ u),
  one_unit 1 (t ++ u),
  one_unit 2 (t ++ u),
)

-- So does none, with four units in sight.
break_size_none : (t u : Text) → 4 ≤ length t → break_size (t ++ u) ≡ break_size t
unfolding break_size
break_size_none t u h =
    rw
      (
        is_at_within 0 10 t u (omega arith),
        is_at_within 0 13 t u (omega arith),
        is_at_within 1 10 t u (omega arith),
        is_at_within 1 13 t u (omega arith),
        is_at_within 2 10 t u (omega arith),
        is_at_within 2 13 t u (omega arith),
        is_at_within 3 10 t u (omega arith),
      )
      refl

-- The cases of a match.
pub by_size {ℓ} :
    (P : List Text × Text → Type ℓ) (n : ℕ) (x : List Text × Text) (f : ℕ → List Text × Text)
    → (n ≡ 0 → P x)
    → ((k : ℕ) → n ≡ suc k → P (f k))
    → P (elim n [ zero ↦ x | suc k ↦ f k ])
by_size P zero x f p q = p refl
by_size P (suc k) x f p q = q k refl

abbrev HasNoEvent : List Text × Text → Type 0
HasNoEvent (events, rest) = events ≡ []

glue-HasNoEvent : (c : ℕ) (r : List Text × Text) → HasNoEvent r → HasNoEvent (glue c r)
glue-HasNoEvent c ([], rest) h = refl
glue-HasNoEvent c (e ∷ es, rest) h = absurd (ground (arith, h))

one_unit_alone : (d : ℕ) → break_size (d ∷ []) ≡ 0
unfolding break_size is_at
one_unit_alone d = ground arith

cut_one : (d : ℕ) → HasNoEvent (cut 0 (d ∷ []))
unfolding cut
cut_one d =
    by_size HasNoEvent (break_size (d ∷ [])) _ _ (λ e. refl)
      (λ k e. absurd (ground (arith, e, one_unit_alone d)))

cut_two : (d x : ℕ) → break_size (d ∷ x ∷ []) ≡ 0 → HasNoEvent (cut 0 (d ∷ x ∷ []))
unfolding cut
cut_two d x h =
    by_size HasNoEvent (break_size (d ∷ x ∷ [])) _ _
      (λ e. glue-HasNoEvent d (cut 0 (x ∷ [])) (cut_one x)) (λ k e. absurd (ground (arith, e, h)))

two_units :
    (c d x : ℕ) (u : Text) (k : ℕ)
    → break_size (d ∷ x ∷ []) ≡ suc k
    → break_size (c ∷ d ∷ x ∷ []) ≡ 0
    → break_size (c ∷ d ∷ x ∷ u) ≡ 0
unfolding break_size is_at
two_units c d x u k e h = ground (arith, e, h)

pub ℕ-cases : (n : ℕ) → (n ≡ 0) ⊎ ((k : ℕ) × (n ≡ suc k))
ℕ-cases zero = inl refl
ℕ-cases (suc k) = inr (k, refl)

-- In front of an event that has ended, no more text makes a break.
pub break_size_stable :
    (c : ℕ) (cs u : Text) (e : Text) (es : List Text)
    → (cut 0 cs).0 ≡ e ∷ es
    → break_size (c ∷ cs) ≡ 0
    → break_size (c ∷ (cs ++ u)) ≡ 0
unfolding cut
break_size_stable c [] u e es h none_here = absurd (ground (arith, h))
break_size_stable c (d ∷ []) u e es h none_here = absurd (ground (arith, sym h ∙ cut_one d))
break_size_stable c (d ∷ x ∷ []) u e es h none_here = elim (ℕ-cases (break_size (d ∷ x ∷ []))) [
  | inl short ↦ absurd (ground (arith, sym h ∙ cut_two d x short))
  | inr (k, long) ↦ two_units c d x u k long none_here
]
break_size_stable c (d ∷ x ∷ y ∷ ys) u e es h none_here =
    break_size_none (c ∷ d ∷ x ∷ y ∷ ys) u (omega arith) ∙ none_here

-- ===== src/AgentRuntime/Text/Escape.antt =====
-- What untrusted content can hold after its escape in apps/agent-runtime/src/runtime.ts.
use mathlib.Core.List.{append_assoc}
use comamessenger.Prelude.{
  ℕ, ◌≡◌, refl, sym, ap, ◌∙◌, inl, inr, [], ◌∷◌, ◌++◌, arith, ◌==◌, if◌then◌else◌, Bool-cases, All,
  All-append, ◌≢◌,
}
use comamessenger.AgentRuntime.Text.{
  Text, replace_all, ampersand, less_than, greater_than, amp_entity, lt_entity, gt_entity,
  escape_untrusted_content,
}

-- What stands for one character.
abbrev pub escaped : ℕ → Text
escaped c =
    if c == ampersand
    then amp_entity
    else if c == less_than
    then lt_entity
    else if c == greater_than
    then gt_entity
    else c ∷ []

unfoldable pub escape_each : Text → Text
escape_each [] = []
escape_each (c ∷ cs) = escaped c ++ escape_each cs

replace_all-append :
    (old : ℕ) (new a b : Text)
    → replace_all old new (a ++ b) ≡ replace_all old new a ++ replace_all old new b
unfolding replace_all
replace_all-append old new [] b = refl
replace_all-append old new (c ∷ cs) b = elim (Bool-cases (c == old)) [
  | inl e ↦
      rw (e, replace_all-append old new cs b)
        (sym (append_assoc new (replace_all old new cs) (replace_all old new b)))
  | inr e ↦ rw (e, replace_all-append old new cs b) refl
]

-- The last two passes on what the first one makes of a character.
one_character :
    (c : ℕ)
    → replace_all greater_than gt_entity
        (replace_all less_than lt_entity (replace_all ampersand amp_entity (c ∷ [])))
      ≡ escaped c
unfolding replace_all
one_character c = ground arith

escape-append :
    (a b : Text)
    → escape_untrusted_content (a ++ b) ≡ escape_untrusted_content a ++ escape_untrusted_content b
unfolding escape_untrusted_content
escape-append a b =
    let amp : Text → Text = replace_all ampersand amp_entity in
    let lt : Text → Text = replace_all less_than lt_entity in
    let gt : Text → Text = replace_all greater_than gt_entity in
    ap (λ t. gt (lt t)) (replace_all-append ampersand amp_entity a b)
    ∙ ap gt (replace_all-append less_than lt_entity (amp a) (amp b))
    ∙ replace_all-append greater_than gt_entity (lt (amp a)) (lt (amp b))

escape_untrusted_content-each : (value : Text) → escape_untrusted_content value ≡ escape_each value
unfolding escape_untrusted_content escape_each replace_all
escape_untrusted_content-each [] = refl
escape_untrusted_content-each (c ∷ cs) =
    escape-append (c ∷ []) cs
    ∙ ap (λ l. l ++ escape_untrusted_content cs) (one_character c)
    ∙ ap (λ l. escaped c ++ l) (escape_untrusted_content-each cs)

abbrev pub IsInert : Text → Type 0
IsInert = All (λ c. (c ≢ less_than) × (c ≢ greater_than))

escaped-IsInert : (c : ℕ) → IsInert (escaped c)
escaped-IsInert c = elim (Bool-cases (c == ampersand)) [
  | inl e ↦ rw e (
    (λ p. omega arith, λ p. omega arith),
    (
      (λ p. omega arith, λ p. omega arith),
      (
        (λ p. omega arith, λ p. omega arith),
        ((λ p. omega arith, λ p. omega arith), ((λ p. omega arith, λ p. omega arith), tt)),
      ),
    ),
  )
  | inr e ↦ rw e (elim (Bool-cases (c == less_than)) [
    | inl f ↦ rw f (
      (λ p. omega arith, λ p. omega arith),
      (
        (λ p. omega arith, λ p. omega arith),
        ((λ p. omega arith, λ p. omega arith), ((λ p. omega arith, λ p. omega arith), tt)),
      ),
    )
    | inr f ↦ rw f (elim (Bool-cases (c == greater_than)) [
      | inl g ↦ rw g (
        (λ p. omega arith, λ p. omega arith),
        (
          (λ p. omega arith, λ p. omega arith),
          ((λ p. omega arith, λ p. omega arith), ((λ p. omega arith, λ p. omega arith), tt)),
        ),
      )
      | inr g ↦ rw g ((λ p. ground arith, λ p. ground arith), tt)
    ])
  ])
]

escape_each-IsInert : (value : Text) → IsInert (escape_each value)
unfolding escape_each
escape_each-IsInert [] = tt
escape_each-IsInert (c ∷ cs) =
    All-append (λ n. (n ≢ less_than) × (n ≢ greater_than)) (escaped c) (escape_each cs)
      (escaped-IsInert c) (escape_each-IsInert cs)

-- The three replacements of untrusted content, one after another, replace each of its characters on
-- its own, and what comes out holds no angle bracket.
pub escape_untrusted_content_lem :
    (value : Text)
    → (escape_untrusted_content value ≡ escape_each value)
      × IsInert (escape_untrusted_content value)
escape_untrusted_content_lem value =
    let each = escape_untrusted_content-each value in (each, rw each (escape_each-IsInert value))

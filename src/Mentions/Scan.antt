-- ===== src/Mentions/Scan.antt =====
-- What the regular expression of packages/core/src/mentions.ts finds in a source.
use mathlib.Core.List.{append_assoc, append-nil}
use comamessenger.Prelude.{
  ℕ, zero, suc, ◌+◌, ◌≡◌, refl, sym, ap, ◌∙◌, List, [], ◌∷◌, ◌++◌, Bool, true, false, Option, none,
  some, arith, inl, inr, Bool-cases, if◌then◌else◌, ◌==◌, length, drop, by_bind, length-append,
  drop-length,
}
use comamessenger.Mentions.{
  Match, expect, span_label, take_id, take_label, match_here, match_all, mention_source, is_id_char,
}
use comamessenger.Prelude.Units.{Text}

expect_lem : (c : ℕ) (text rest : Text) → expect c text ≡ some rest → text ≡ c ∷ rest
unfolding expect
expect_lem c [] rest e = absurd (ground (arith, e))
expect_lem c (d ∷ ds) rest e = ground (arith, e)

span_label_lem : (text : Text) → (span_label text).0 ++ (span_label text).1 ≡ text
unfolding span_label
span_label_lem [] = refl
span_label_lem (c ∷ cs) = elim (Bool-cases (c == 93)) [
  | inl e ↦ rw e refl
  | inr e ↦ rw e (ap (λ l. c ∷ l) (span_label_lem cs))
]

abbrev joined : Option (Text × Text) → Text
joined none = []
joined (some (first, rest)) = first ++ rest

take_label_lem :
    (text label rest : Text) → take_label text ≡ some (label, rest) → text ≡ label ++ rest
unfolding take_label
take_label_lem text label rest e =
    sym (span_label_lem text) ∙ whole (span_label text).0 (span_label text).1 e
  where
    whole :
        (l after : Text)
        → (elim l as (λ k. Option (Text × Text)) [ [] ↦ none | c ∷ cs ↦ some (c ∷ cs, after) ])
          ≡ some (label, rest)
        → l ++ after ≡ label ++ rest
    whole [] after q = absurd (ground (arith, q))
    whole (c ∷ cs) after q = ap joined q

take_id_lem : (n : ℕ) (text id rest : Text) → take_id n text ≡ some (id, rest) → text ≡ id ++ rest
unfolding take_id
take_id_lem zero text id rest e = ap joined e
take_id_lem (suc n) [] id rest e = absurd (ground (arith, e))
take_id_lem (suc n) (c ∷ cs) id rest e =
    first (is_id_char c) (take_id n cs) (λ i r q. take_id_lem n cs i r q) e
  where
    first :
        (b : Bool) (found : Option (Text × Text))
        → ((i r : Text) → found ≡ some (i, r) → cs ≡ i ++ r)
        → if◌then◌else◌ {A = Option (Text × Text)} b
            (elim found [ none ↦ none | some p ↦ some (c ∷ p.0, p.1) ])
            none
          ≡ some (id, rest)
        → c ∷ cs ≡ id ++ rest
    first true none ih q = absurd (ground (arith, q))
    first true (some (i, r)) ih q = ap (λ l. c ∷ l) (ih i r refl) ∙ ap joined q
    first false found ih q = absurd (ground (arith, q))

-- What `match_here` finds stands at the start of the text.
abbrev IsFoundIn : Text → Option (Text × Text × Text) → Type 0
IsFoundIn text none = Unit
IsFoundIn text (some (label, id, rest)) = text ≡ mention_source label id ++ rest

match_here-IsFoundIn : (text : Text) → IsFoundIn text (match_here text)
unfolding match_here
match_here-IsFoundIn text = by_bind P (expect 64 text) _ tt (λ at e1.
    by_bind P (expect 91 at) _ tt (λ bracket e2. by_bind P (take_label bracket) _ tt (λ l e3.
      by_bind P (expect 93 l.1) _ tt (λ closed e4. by_bind P (expect 40 closed) _ tt (λ paren e5.
        by_bind P (take_id 36 paren) _ tt (λ i e6. by_bind P (expect 41 i.1) _ tt (λ rest e7.
          whole l.0 i.0 rest (expect_lem 64 _ _ e1) (expect_lem 91 _ _ e2) (take_label_lem _ _ _ e3)
            (expect_lem 93 _ _ e4) (expect_lem 40 _ _ e5) (take_id_lem 36 _ _ _ e6)
            (expect_lem 41 _ _ e7))))))))
  where
    P : Option (Text × Text × Text) → Type 0
    P = IsFoundIn text

    whole :
        (label id rest : Text) {at bracket closed paren l i : Text}
        → text ≡ 64 ∷ at
        → at ≡ 91 ∷ bracket
        → bracket ≡ label ++ l
        → l ≡ 93 ∷ closed
        → closed ≡ 40 ∷ paren
        → paren ≡ id ++ i
        → i ≡ 41 ∷ rest
        → text ≡ mention_source label id ++ rest
    whole label id rest e1 e2 e3 e4 e5 e6 e7 =
        rw
          (
            e1,
            e2,
            e3,
            e4,
            e5,
            e6,
            e7,
            append_assoc label (93 ∷ 40 ∷ (id ++ 41 ∷ [])) rest,
            append_assoc id (41 ∷ []) rest,
          )
          refl

-- What the rest of a match is long.
passed_over :
    (label id rest : Text) (c : ℕ) (cs : Text)
    → c ∷ cs ≡ mention_source label id ++ rest
    → drop (length label + length id + 4) cs ≡ rest
passed_over label id rest c cs e =
    let inner = 91 ∷ (label ++ 93 ∷ 40 ∷ (id ++ 41 ∷ [])) in
    let long : length inner ≡ length label + length id + 4 =
      omega (arith, length-append label (93 ∷ 40 ∷ (id ++ 41 ∷ [])), length-append id (41 ∷ [])) in
    ap (λ n. drop n cs) (sym long)
    ∙ ap (drop (length inner)) (ap (drop 1) e)
    ∙ drop-length inner rest

by_found {ℓ} :
    {text : Text} (P : List Match × Text → Type ℓ) (o : Option (Text × Text × Text))
    (x : List Match × Text) (f : Text → Text → Text → List Match × Text)
    → IsFoundIn text o
    → P x
    → ((label id rest : Text) → text ≡ mention_source label id ++ rest → P (f label id rest))
    → P (elim o [ none ↦ x | some (label, id, rest) ↦ f label id rest ])
by_found P none x f found p q = p
by_found P (some (label, id, rest)) x f found p q = q label id rest found

-- The source that matches and the text behind them make up.
unfoldable pub source_of : List Match → Text → Text
source_of [] tail = tail
source_of (m ∷ ms) tail = m.before ++ (mention_source m.name m.id ++ source_of ms tail)

pub source_of-match_all :
    (skip : ℕ) (before text : Text)
    → let (ms, tail) = match_all skip before text in source_of ms tail ≡ before ++ drop skip text
unfolding source_of match_all
source_of-match_all zero before [] = sym (append-nil before)
source_of-match_all (suc skip) before [] = sym (append-nil before)
source_of-match_all (suc skip) before (c ∷ cs) = source_of-match_all skip before cs
source_of-match_all zero before (c ∷ cs) =
    by_found (λ r. source_of r.0 r.1 ≡ before ++ c ∷ cs) (match_here (c ∷ cs)) _ _
      (match_here-IsFoundIn (c ∷ cs))
      (source_of-match_all 0 (before ++ c ∷ []) cs ∙ append_assoc before (c ∷ []) cs)
      (λ label id rest e.
        ap (λ l. before ++ l)
          (ap (λ l. mention_source label id ++ l)
              (source_of-match_all (length label + length id + 4) [] cs
                ∙ passed_over label id rest c cs e)
            ∙ sym e))

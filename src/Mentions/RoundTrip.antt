-- ===== src/Mentions/RoundTrip.antt =====
-- What `decodeMentions` of packages/core/src/mentions.ts takes apart, `encodeMentions` puts together.
use mathlib.Core.List.{append_assoc}
use comamessenger.Prelude.{
  suc, ◌+◌, ◌≡◌, refl, sym, subst, ap, ◌∙◌, List, [], ◌∷◌, ◌++◌, arith, length, length-append,
  drop-length,
}
use comamessenger.Mentions.{
  Match, match_all, decode_matches, decode_mentions, encode_from, encode_mentions,
}
use comamessenger.Prelude.Units.{Text, slice}
use comamessenger.Mentions.Scan.{source_of, source_of-match_all}
use comamessenger.Mentions.Chain.{IsChain, IsWellFormed, slice-middle, normalized_references_lem}

-- The text that is shown for matches with a text behind them.
unfoldable shown_of : List Match → Text → Text
shown_of [] tail = tail
shown_of (m ∷ ms) tail = m.before ++ ((64 ∷ m.name) ++ shown_of ms tail)

-- The same as the text that is decoded, in the form in which the matches are gone through.
passed :
    (text : Text) (m : Match) (rest : Text)
    → text ++ (m.before ++ ((64 ∷ m.name) ++ rest)) ≡ ((text ++ m.before) ++ (64 ∷ m.name)) ++ rest
passed text m rest =
    sym (append_assoc (text ++ m.before) (64 ∷ m.name) rest ∙ append_assoc text m.before _)

decode_matches_shown :
    (text : Text) (ms : List Match) (tail : Text)
    → (decode_matches text ms).0 ++ tail ≡ text ++ shown_of ms tail
unfolding decode_matches shown_of
decode_matches_shown text [] tail = refl
decode_matches_shown text (m ∷ ms) tail =
    decode_matches_shown ((text ++ m.before) ++ (64 ∷ m.name)) ms tail
    ∙ sym (passed text m (shown_of ms tail))

decode_matches-IsChain :
    (text : Text) (ms : List Match) (tail : Text)
    → IsChain (text ++ shown_of ms tail) (length text) (decode_matches text ms).1
unfolding decode_matches shown_of
decode_matches-IsChain text [] tail = tt
decode_matches-IsChain text (m ∷ ms) tail =
    let shown = shown_of ms tail in
    let next = (text ++ m.before) ++ (64 ∷ m.name) in
    let rest : IsChain (text ++ shown_of (m ∷ ms) tail) (length next) (decode_matches next ms).1 =
      subst (λ t. IsChain t (length next) (decode_matches next ms).1) (sym (passed text m shown))
        (decode_matches-IsChain next ms tail) in
    (
      omega (arith, length-append text m.before),
      omega arith,
      omega (
        arith,
        length-append text (m.before ++ ((64 ∷ m.name) ++ shown)),
        length-append text m.before,
        length-append m.before ((64 ∷ m.name) ++ shown),
        length-append m.name shown,
      ),
      ap (slice (length (text ++ m.before)) (length (text ++ m.before) + suc (length m.name)))
            (sym (append_assoc text m.before _))
          ∙ slice-middle (text ++ m.before) (64 ∷ m.name) shown,
      subst (λ n. IsChain (text ++ shown_of (m ∷ ms) tail) n (decode_matches next ms).1)
          (length-append (text ++ m.before) (64 ∷ m.name)) rest,
    )

encode_from-decode_matches :
    (text : Text) (ms : List Match) (tail : Text)
    → encode_from (text ++ shown_of ms tail) (length text) (decode_matches text ms).1
      ≡ source_of ms tail
unfolding decode_matches shown_of source_of encode_from
encode_from-decode_matches text [] tail = drop-length text tail
encode_from-decode_matches text (m ∷ ms) tail =
    let shown = shown_of ms tail in
    let next = (text ++ m.before) ++ (64 ∷ m.name) in
    let rest : encode_from (text ++ shown_of (m ∷ ms) tail)
          (length (text ++ m.before) + suc (length m.name)) (decode_matches next ms).1
        ≡ source_of ms tail =
      ap (λ n. encode_from (text ++ shown_of (m ∷ ms) tail) n (decode_matches next ms).1)
        (sym (length-append (text ++ m.before) (64 ∷ m.name)))
      ∙ ap (λ t. encode_from t (length next) (decode_matches next ms).1) (passed text m shown)
      ∙ encode_from-decode_matches next ms tail in
    rw
      (
        length-append text m.before,
        slice-middle text m.before ((64 ∷ m.name) ++ shown),
        sym (length-append text m.before),
        rest,
      )
      refl

-- The references that are decoded stand in order, each at its own text.
pub decode_mentions-IsWellFormed : (source : Text) → IsWellFormed (decode_mentions source)
unfolding decode_mentions
decode_mentions-IsWellFormed source =
    let (ms, tail) = match_all 0 [] source in
    rw (decode_matches_shown [] ms tail) (decode_matches-IsChain [] ms tail)

-- A source is the same again when its mentions are decoded and encoded.
pub encode_mentions-decode_mentions :
    (source : Text) → encode_mentions (decode_mentions source) ≡ source
unfolding encode_mentions decode_mentions
encode_mentions-decode_mentions source =
    let (ms, tail) = match_all 0 [] source in
    rw
      (
        normalized_references_lem (decode_mentions source) (decode_mentions-IsWellFormed source),
        decode_matches_shown [] ms tail,
      )
      (encode_from-decode_matches [] ms tail ∙ source_of-match_all 0 [] source)

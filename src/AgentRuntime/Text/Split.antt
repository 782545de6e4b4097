-- ===== src/AgentRuntime/Text/Split.antt =====
-- The parts of a delta in apps/agent-runtime/src/runtime.ts.
use mathlib.Core.List.{append_assoc, append-nil}
use comamessenger.Prelude.{
  ℕ, ◌+◌, ◌≤◌, ◌≡◌, refl, sym, ap, ◌∙◌, inl, inr, List, [], ◌∷◌, ◌++◌, arith, ltb, leb, leb→le,
  Bool-cases, All, All-append,
}
use comamessenger.AgentRuntime.Text.{
  Text, utf8_size, byte_length, max_bytes, split_from, split_streaming_delta,
}

-- The parts one behind the other.
unfoldable pub joined : List Text → Text
joined [] = []
joined (p ∷ ps) = p ++ joined ps

pub joined-append : (ps qs : List Text) → joined (ps ++ qs) ≡ joined ps ++ joined qs
unfolding joined
joined-append [] qs = refl
joined-append (p ∷ ps) qs =
    ap (λ l. p ++ l) (joined-append ps qs) ∙ sym (append_assoc p (joined ps) (joined qs))

pub joined-snoc : (ps : List Text) (p : Text) → joined (ps ++ p ∷ []) ≡ joined ps ++ p
unfolding joined
joined-snoc ps p = joined-append ps (p ∷ []) ∙ ap (λ l. joined ps ++ l) (append-nil p)

byte_length-append : (a b : Text) → byte_length (a ++ b) ≡ byte_length a + byte_length b
unfolding byte_length
byte_length-append [] b = omega arith
byte_length-append (c ∷ cs) b = omega (arith, byte_length-append cs b)

pub byte_length_one : (c : ℕ) → byte_length (c ∷ []) ≡ utf8_size c
unfolding byte_length
byte_length_one c = omega arith

pub utf8_size_bounds : (c : ℕ) → (1 ≤ utf8_size c) × (utf8_size c ≤ 4)
unfolding utf8_size
utf8_size_bounds c = ground arith

abbrev pub IsSmall : Text → Type 0
IsSmall p = byte_length p ≤ max_bytes

joined-split_from :
    (current : Text) (bytes : ℕ) (result : List Text) (cs : Text)
    → joined (split_from current bytes result cs) ≡ (joined result ++ current) ++ cs
unfolding split_from
joined-split_from [] bytes result [] =
    sym (append-nil (joined result ++ []) ∙ append-nil (joined result))
joined-split_from (x ∷ xs) bytes result [] =
    joined-snoc result (x ∷ xs) ∙ sym (append-nil (joined result ++ (x ∷ xs)))
joined-split_from current bytes result (c ∷ cs) =
    elim (Bool-cases (ltb max_bytes (bytes + utf8_size c))) [
      | inl e ↦ rw e (
          joined-split_from (c ∷ []) (utf8_size c) (result ++ current ∷ []) cs
          ∙ ap (λ l. (l ++ c ∷ []) ++ cs) (joined-snoc result current)
          ∙ append_assoc (joined result ++ current) (c ∷ []) cs)
      | inr e ↦ rw e (
          joined-split_from (current ++ c ∷ []) (bytes + utf8_size c) result cs
          ∙ ap (λ l. l ++ cs) (sym (append_assoc (joined result) current (c ∷ [])))
          ∙ append_assoc (joined result ++ current) (c ∷ []) cs)
    ]

IsSmall-split_from :
    (current : Text) (bytes : ℕ) (result : List Text) (cs : Text)
    → bytes ≡ byte_length current
    → bytes ≤ max_bytes
    → All IsSmall result
    → All IsSmall (split_from current bytes result cs)
unfolding split_from
IsSmall-split_from [] bytes result [] e b h = h
IsSmall-split_from (x ∷ xs) bytes result [] e b h =
    All-append IsSmall result ((x ∷ xs) ∷ []) h (omega arith, tt)
IsSmall-split_from current bytes result (c ∷ cs) e b h =
    elim (Bool-cases (ltb max_bytes (bytes + utf8_size c))) [
      | inl over ↦ rw over (
          IsSmall-split_from (c ∷ []) (utf8_size c) (result ++ current ∷ []) cs
            (sym (byte_length_one c)) (omega (arith, utf8_size_bounds c))
            (All-append IsSmall result (current ∷ []) h (omega arith, tt)))
      | inr fits ↦ rw fits (
          IsSmall-split_from (current ++ c ∷ []) (bytes + utf8_size c) result cs
            (omega (arith, byte_length-append current (c ∷ []), byte_length_one c)) (ground arith)
            h)
    ]

-- The parts that a delta is sent in make up the delta again, and none has more than 8192 bytes.
pub split_streaming_delta_lem :
    (value : Text)
    → (joined (split_streaming_delta value) ≡ value) × All IsSmall (split_streaming_delta value)
unfolding split_streaming_delta joined
split_streaming_delta_lem value = elim (Bool-cases (leb (byte_length value) max_bytes)) [
  | inl e ↦ rw e (append-nil value, (leb→le _ _ e, tt))
  | inr e ↦
      rw e (joined-split_from [] 0 [] value, IsSmall-split_from [] 0 [] value refl (omega arith) tt)
]

-- ===== src/Providers/Reading.antt =====
-- What `readProviderSSE` of apps/agent-runtime/src/providers.ts yields, however its stream is cut into
-- chunks.
use mathlib.Core.List.{append_assoc, append-nil, append_cancel_left}
use comamessenger.Prelude.Units.{Text}
use comamessenger.Prelude.{
  ℕ, ◌+◌, ◌≤◌, ◌≡◌, refl, sym, ap, ◌∙◌, List, [], ◌∷◌, ◌++◌, Bool, false, arith, inl, inr, ltb,
  Option, none, some, Bool-cases, Option-cases,
}
use comamessenger.AgentRuntime.Run.{Cause}
use comamessenger.Providers.{
  cut, max_stream_bytes, is_skipped, data_of, deliver, followed, read_chunks, read_provider_sse,
}
use comamessenger.Providers.Chunks.{cut-append}

abbrev pub text_of : List (ℕ × Text) → Text
text_of [] = []
text_of ((size, text) ∷ chunks) = text ++ text_of chunks

abbrev pub size_of : List (ℕ × Text) → ℕ
size_of [] = 0
size_of ((size, text) ∷ chunks) = size + size_of chunks

-- What is left in the buffer holds no whole event.
buffer_is_open : (t : Text) → (cut 0 (cut 0 t).1).0 ≡ []
buffer_is_open t =
    let (events, rest) = cut 0 t in
    let whole : cut 0 (rest ++ []) ≡ cut 0 rest = ap (cut 0) (append-nil rest) in
    append_cancel_left events (cut 0 rest).0 [] (
      ap (λ l. events ++ l) (ap (λ r. r.0) (sym whole))
      ∙ ap (λ r. r.0) (sym (cut-append 0 t [] (omega arith)) ∙ ap (cut 0) (append-nil t))
      ∙ sym (append-nil events))

module _ {P : Type 0} (parse : Text → Option P) (is_error : P → Bool)
    (trim_start : Text → Text) where
  followed-cons :
      (p : P) (r s : List P × Option Cause)
      → followed parse is_error trim_start (p ∷ r.0, r.1) s ≡ (
        p ∷ (followed parse is_error trim_start r s).0,
        (followed parse is_error trim_start r s).1,
      )
  followed-cons p (ps, none) s = refl
  followed-cons p (ps, some cause) s = refl

  deliver-append :
      (xs ys : List Text)
      → deliver parse is_error trim_start (xs ++ ys)
        ≡ followed parse is_error trim_start
            (deliver parse is_error trim_start xs)
            (deliver parse is_error trim_start ys)
  unfolding deliver
  deliver-append [] ys = refl
  deliver-append (x ∷ xs) ys =
      let value = data_of parse is_error trim_start x in
      elim (Bool-cases (is_skipped parse is_error trim_start value)) [
        | inl e ↦ rw e (deliver-append xs ys)
        | inr e ↦ elim (Option-cases (parse value)) [
          | inl f ↦ rw (e, f) refl
          | inr (p, f) ↦ elim (Bool-cases (is_error p)) [
            | inl g ↦ rw (e, f, g) refl
            | inr g ↦
                rw (e, f, g, deliver-append xs ys)
                  (sym (
                    followed-cons p (deliver parse is_error trim_start xs)
                      (deliver parse is_error trim_start ys)))
          ]
        ]
      ]

  read_chunks_lem :
      (bytes : ℕ) (buffer : Text) (chunks : List (ℕ × Text))
      → bytes + size_of chunks ≤ max_stream_bytes
      → (cut 0 buffer).0 ≡ []
      → read_chunks parse is_error trim_start bytes buffer chunks
        ≡ deliver parse is_error trim_start (cut 0 (buffer ++ text_of chunks)).0
  unfolding read_chunks deliver
  read_chunks_lem bytes buffer [] h k = rw (append-nil buffer, k) refl
  read_chunks_lem bytes buffer ((size, text) ∷ chunks) h k =
      let (events, rest) = cut 0 (buffer ++ text) in
      let small : ltb max_stream_bytes (bytes + size) ≡ false = ground (arith, h) in
      let ih =
        read_chunks_lem (bytes + size) rest chunks (omega (arith, h))
          (buffer_is_open (buffer ++ text)) in
      rw (small, ih)
        (sym (deliver-append events (cut 0 (rest ++ text_of chunks)).0)
          ∙ ap (λ r. deliver parse is_error trim_start r.0)
              (sym (cut-append 0 (buffer ++ text) (text_of chunks) (omega arith))
                ∙ ap (cut 0) (append_assoc buffer text (text_of chunks))))

  -- A stream within the limit yields the payloads of its whole text, up to the first that is invalid or an
  -- error, however it is cut into chunks.
  pub read_provider_sse_lem :
      (chunks : List (ℕ × Text))
      → size_of chunks ≤ 16777216
      → read_provider_sse parse is_error trim_start chunks
        ≡ deliver parse is_error trim_start (cut 0 (text_of chunks)).0
  unfolding read_provider_sse cut
  read_provider_sse_lem chunks h = read_chunks_lem 0 [] chunks (omega arith) refl

-- ===== src/Prelude/Units.antt =====
-- Texts as JavaScript counts them, by UTF-16 units.
use Prim.Native.Nat.{ℕ, ◌-◌}
use mathlib.Core.Path.{◌≡◌, refl}
use mathlib.Core.List.{List, [], ◌∷◌}
use mathlib.Core.Bool.{Bool, true, false, ◌&&◌}
use native.Mathlib.Omega.{arith}
use comamessenger.Prelude.Tests.{◌==◌, ==_iff}
use comamessenger.Prelude.Lists.{take, drop}

abbrev pub Text : Type 0
Text = List ℕ

unfoldable pub same_text : Text → Text → Bool
same_text [] [] = true
same_text [] (d ∷ ds) = false
same_text (c ∷ cs) [] = false
same_text (c ∷ cs) (d ∷ ds) = (c == d) && same_text cs ds

-- `text.slice(first, last)`
unfoldable pub slice : ℕ → ℕ → Text → Text
slice first last text = take (last - first) (drop first text)

pub same_text_refl : (t : Text) → same_text t t ≡ true
unfolding same_text
same_text_refl [] = refl
same_text_refl (c ∷ cs) = ground (arith, same_text_refl cs)

pub same_text_lem : (t u : Text) → same_text t u ≡ true → t ≡ u
unfolding same_text
same_text_lem [] [] e = refl
same_text_lem [] (d ∷ ds) e = absurd (ground (arith, e))
same_text_lem (c ∷ cs) [] e = absurd (ground (arith, e))
same_text_lem (c ∷ cs) (d ∷ ds) e =
    rw ((==_iff c d).0 (ground (arith, e)), same_text_lem cs ds (ground (arith, e))) refl

pub same_text_sym : (t u : Text) → same_text t u ≡ same_text u t
unfolding same_text
same_text_sym [] [] = refl
same_text_sym [] (d ∷ ds) = refl
same_text_sym (c ∷ cs) [] = refl
same_text_sym (c ∷ cs) (d ∷ ds) = ground (arith, same_text_sym cs ds)

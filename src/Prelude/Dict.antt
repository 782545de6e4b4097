-- ===== src/Prelude/Dict.antt =====
-- A JavaScript object or Map with text keys, as an association list in insertion order. A write to
-- a key that is there keeps its place.
use Prim.Native.String.{String}
use mathlib.Core.Path.{◌≡◌, refl, sym, subst}
use mathlib.Core.Option.{Option, none, some}
use mathlib.Core.List.{List, [], ◌∷◌, map}
use native.Mathlib.Omega.{arith}
use text.Mathlib.Text.{◌==◌ as str_eq}
use text.Mathlib.TextEquality.{eq_iff}
use comamessenger.Prelude.Tests.{if◌then◌else◌, Bool-cases}
use mathlib.Core.Logic.{inl, inr}

abbrev pub Dict {ℓ} : Type ℓ → Type ℓ
Dict V = List (String × V)

module _ {ℓ} {V : Type ℓ} where
  unfoldable pub lookup : String → Dict V → Option V
  lookup k [] = none
  lookup k ((j, v) ∷ m) = if str_eq j k then some v else lookup k m

  unfoldable pub insert : String → V → Dict V → Dict V
  insert k v [] = (k, v) ∷ []
  insert k v ((j, w) ∷ m) =
      let rest = insert k v m in if str_eq j k then (j, v) ∷ m else (j, w) ∷ rest

  unfoldable pub delete : String → Dict V → Dict V
  delete k [] = []
  delete k ((j, w) ∷ m) = let rest = delete k m in if str_eq j k then rest else (j, w) ∷ rest

  pub lookup-insert :
      (k j : String) (v : V) (m : Dict V)
      → lookup j (insert k v m) ≡ (if str_eq k j then some v else lookup j m)
  unfolding lookup insert
  lookup-insert written j v [] = refl
  lookup-insert written j v ((at, old) ∷ rest) =
      let ih = lookup-insert written j v rest in
      ground (arith, ih, eq_iff at written, eq_iff at j, eq_iff written j)

  pub lookup-delete :
      (k j : String) (m : Dict V)
      → lookup j (delete k m) ≡ (if str_eq k j then none else lookup j m)
  unfolding lookup delete
  lookup-delete k j [] = ground arith
  lookup-delete k j ((i, w) ∷ m) =
      ground (arith, eq_iff k j, eq_iff i k, eq_iff i j, lookup-delete k j m)

module _ {ℓ κ} {V : Type ℓ} {W : Type κ} where
  abbrev pub map_values : (V → W) → Dict V → Dict W
  map_values f = map (λ e. (e.0, f e.1))

  abbrev pub map_option : (V → W) → Option V → Option W
  map_option f none = none
  map_option f (some v) = some (f v)

  pub lookup-map_values :
      (f : V → W) (k : String) (m : Dict V) → lookup k (map_values f m) ≡ map_option f (lookup k m)
  unfolding lookup
  lookup-map_values f k [] = refl
  lookup-map_values f k ((j, v) ∷ m) = ground (arith, lookup-map_values f k m)

module _ {ℓ κ} {V : Type ℓ} (P : String → V → Type κ) where
  -- Every entry of the dictionary satisfies `P`.
  abbrev pub AllEntries : Dict V → Type κ
  AllEntries [] = Unit
  AllEntries ((k, v) ∷ m) = P k v × AllEntries m

  pub AllEntries-insert :
      (k : String) (v : V) (m : Dict V) → P k v → AllEntries m → AllEntries (insert k v m)
  unfolding insert
  AllEntries-insert k v [] p h = (p, tt)
  AllEntries-insert k v ((j, w) ∷ m) p h = elim (Bool-cases (str_eq j k)) [
    | inl e ↦ rw e (subst (λ i. P i v) (sym ((eq_iff j k).0 e)) p, h.1)
    | inr e ↦ rw e (h.0, AllEntries-insert k v m p h.1)
  ]

  pub AllEntries-delete : (k : String) (m : Dict V) → AllEntries m → AllEntries (delete k m)
  unfolding delete
  AllEntries-delete k [] h = tt
  AllEntries-delete k ((j, w) ∷ m) h = elim (Bool-cases (str_eq j k)) [
    | inl e ↦ rw e (AllEntries-delete k m h.1)
    | inr e ↦ rw e (h.0, AllEntries-delete k m h.1)
  ]

  pub AllEntries-lookup :
      (k : String) (v : V) (m : Dict V) → lookup k m ≡ some v → AllEntries m → P k v
  unfolding lookup
  AllEntries-lookup k v [] e h = absurd (ground arith)
  AllEntries-lookup k v ((j, w) ∷ m) e h = elim (Bool-cases (str_eq j k)) [
    | inl same ↦ subst (λ i. P i v) ((eq_iff j k).0 same) (subst (P j) (ground arith) h.0)
    | inr other ↦ AllEntries-lookup k v m (ground arith) h.1
  ]

pub AllEntries-map_values {ℓ κ μ ν} :
    {V : Type ℓ} {W : Type κ} (P : String → V → Type μ) (Q : String → W → Type ν) (f : V → W)
    → ((k : String) (v : V) → P k v → Q k (f v))
    → (m : Dict V) → AllEntries P m
    → AllEntries Q (map_values f m)
AllEntries-map_values P Q f g [] h = tt
AllEntries-map_values P Q f g ((k, v) ∷ m) h = (g k v h.0, AllEntries-map_values P Q f g m h.1)

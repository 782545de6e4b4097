-- ===== src/AgentRuntime/Run/Cases.antt =====
-- What holds on every branch of a test or of an answer in apps/agent-runtime/src.
use comamessenger.Prelude.{
  Option, none, some, Bool, true, false, List, [], ◌∷◌, if◌then◌else◌, ◌≡◌, refl,
}
use comamessenger.AgentRuntime.Run.{Cause, Result, ok, threw}

module _ {A X : Type 0} (P : X → Type 0) where
  -- On either end of an `await`.
  pub by_result :
      (r : Result A) (f : Cause → X) (g : A → X)
      → ((cause : Cause) → P (f cause))
      → ((a : A) → P (g a))
      → P (elim r [ threw cause ↦ f cause | ok a ↦ g a ])
  by_result (threw cause) f g p q = p cause
  by_result (ok a) f g p q = q a

  -- The same with the answer in hand.
  pub by_answer :
      (r : Result A) (f : Cause → X) (g : A → X)
      → ((cause : Cause) → r ≡ threw cause → P (f cause))
      → ((a : A) → r ≡ ok a → P (g a))
      → P (elim r [ threw cause ↦ f cause | ok a ↦ g a ])
  by_answer (threw cause) f g p q = p cause refl
  by_answer (ok a) f g p q = q a refl

  pub by_option :
      (o : Option A) (x : X) (g : A → X)
      → P x
      → ((a : A) → P (g a))
      → P (elim o [ none ↦ x | some a ↦ g a ])
  by_option none x g p q = p
  by_option (some a) x g p q = q a

  pub by_list :
      (l : List A) (x : X) (g : A → List A → X)
      → P x
      → ((a : A) (rest : List A) → P (g a rest))
      → P (elim l [ [] ↦ x | a ∷ rest ↦ g a rest ])
  by_list [] x g p q = p
  by_list (a ∷ rest) x g p q = q a rest

module _ {X : Type 0} (P : X → Type 0) where
  pub by_test : (b : Bool) (x y : X) → (b ≡ true → P x) → (b ≡ false → P y) → P (if b then x else y)
  by_test true x y p q = p refl
  by_test false x y p q = q refl

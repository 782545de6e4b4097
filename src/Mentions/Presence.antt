-- ===== src/Mentions/Presence.antt =====
-- The references that a draft of packages/core/src/mentions.ts has, in whatever order.
use comamessenger.Prelude.{◌≡◌, refl, ◌⊎◌, inl, inr, List, [], ◌∷◌, ◌++◌, leb, Bool-cases}
use comamessenger.Mentions.{MentionReference, insert_by_start, sort_by_start}

abbrev pub Has : MentionReference → List MentionReference → Type 0
Has x [] = ⊥
Has x (m ∷ ms) = (x ≡ m) ⊎ Has x ms

pub Has-last : (x : MentionReference) (ms : List MentionReference) → Has x (ms ++ x ∷ [])
Has-last x [] = inl refl
Has-last x (m ∷ ms) = inr (Has-last x ms)

insert_by_start-Has :
    (x m : MentionReference) (ms : List MentionReference)
    → (x ≡ m) ⊎ Has x ms
    → Has x (insert_by_start m ms)
unfolding insert_by_start
insert_by_start-Has x m [] h = h
insert_by_start-Has x m (n ∷ ns) h = elim (Bool-cases (leb m.start n.start)) [
  | inl e ↦ rw e h
  | inr e ↦ rw e (elim h [
    | inl same ↦ inr (insert_by_start-Has x m ns (inl same))
    | inr (inl first) ↦ inl first
    | inr (inr later) ↦ inr (insert_by_start-Has x m ns (inr later))
  ])
]

pub sort_by_start-Has :
    (x : MentionReference) (ms : List MentionReference) → Has x ms → Has x (sort_by_start ms)
unfolding sort_by_start
sort_by_start-Has x [] h = h
sort_by_start-Has x (m ∷ ms) (inl e) = insert_by_start-Has x m (sort_by_start ms) (inl e)
sort_by_start-Has x (m ∷ ms) (inr h) =
    insert_by_start-Has x m (sort_by_start ms) (inr (sort_by_start-Has x ms h))

pub Has-append :
    (x : MentionReference) (ms ns : List MentionReference) → Has x ns → Has x (ms ++ ns)
Has-append x [] ns h = h
Has-append x (m ∷ ms) ns h = inr (Has-append x ms ns h)

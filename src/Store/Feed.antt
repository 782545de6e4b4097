-- ===== src/Store/Feed.antt =====
-- What `uniqueSorted` of packages/core/src/store.ts computes: the messages of a chat in the order of
-- their sequence numbers, one for each key.
use comamessenger.Prelude.{
  ◌≤◌, String, ◌≡◌, refl, sym, ap, ◌∙◌, ◌≢◌, inl, inr, Option, none, some, List, [], ◌∷◌, arith,
  leb, leb_false→lt, leb→le, str_eq, eq_iff, if◌then◌else◌, Bool-cases, All, All-mono,
}
use comamessenger.Wire.{Message}
use comamessenger.Store.Merge.{key, spread_on, insert_by_seq, sort_by_seq}

abbrev pub IsSorted : List Message → Type 0
IsSorted [] = Unit
IsSorted (m ∷ ms) = All (λ x. m.created_seq ≤ x.created_seq) ms × IsSorted ms

-- No message of the list has the key.
abbrev pub IsFresh : String → List Message → Type 0
IsFresh k = All (λ x. key x ≢ k)

abbrev pub HasDistinctKeys : List Message → Type 0
HasDistinctKeys [] = Unit
HasDistinctKeys (m ∷ ms) = IsFresh (key m) ms × HasDistinctKeys ms

pub record IsFeed (ms : List Message) : Type 0 where
  pub sorted : IsSorted ms
  pub distinct : HasDistinctKeys ms

unfoldable pub find : String → List Message → Option Message
find k [] = none
find k (m ∷ ms) = if str_eq (key m) k then some m else find k ms

-- The merge, oldest first, of the items with one key.
unfoldable pub merged : String → Option Message → List Message → Option Message
merged k found [] = found
merged k found (m ∷ ms) = merged k (if str_eq (key m) k then some (spread_on found m) else found) ms

module _ {ℓ} (P : Message → Type ℓ) where
  pub All-insert_by_seq :
      (m : Message) (ms : List Message) → P m → All P ms → All P (insert_by_seq m ms)
  unfolding insert_by_seq
  All-insert_by_seq m [] p h = (p, tt)
  All-insert_by_seq m (x ∷ xs) p h = ground (arith, All-insert_by_seq m xs p h.1)

  pub All-sort_by_seq : (ms : List Message) → All P ms → All P (sort_by_seq ms)
  unfolding sort_by_seq
  All-sort_by_seq [] h = tt
  All-sort_by_seq (m ∷ ms) h = All-insert_by_seq m (sort_by_seq ms) h.0 (All-sort_by_seq ms h.1)

le-All :
    (m x : Message) (ms : List Message)
    → m.created_seq ≤ x.created_seq
    → All (λ y. x.created_seq ≤ y.created_seq) ms
    → All (λ y. m.created_seq ≤ y.created_seq) ms
le-All m x ms h = All-mono _ _ (λ y p. omega arith) ms

insert_by_seq-IsSorted :
    (m : Message) (ms : List Message) → IsSorted ms → IsSorted (insert_by_seq m ms)
unfolding insert_by_seq
insert_by_seq-IsSorted m [] h = (tt, tt)
insert_by_seq-IsSorted m (x ∷ xs) (h, hs) = elim (Bool-cases (leb m.created_seq x.created_seq)) [
  | inl e ↦ rw e ((leb→le _ _ e, le-All m x xs (leb→le _ _ e) h), (h, hs))
  | inr e ↦ rw e (
    All-insert_by_seq (λ y. x.created_seq ≤ y.created_seq) m xs (omega (arith, leb_false→lt _ _ e))
        h,
    insert_by_seq-IsSorted m xs hs,
  )
]

pub sort_by_seq-IsSorted : (ms : List Message) → IsSorted (sort_by_seq ms)
unfolding sort_by_seq
sort_by_seq-IsSorted [] = tt
sort_by_seq-IsSorted (m ∷ ms) = insert_by_seq-IsSorted m (sort_by_seq ms) (sort_by_seq-IsSorted ms)

insert_by_seq-HasDistinctKeys :
    (m : Message) (ms : List Message)
    → IsFresh (key m) ms
    → HasDistinctKeys ms
    → HasDistinctKeys (insert_by_seq m ms)
unfolding insert_by_seq
insert_by_seq-HasDistinctKeys m [] f d = (tt, tt)
insert_by_seq-HasDistinctKeys m (x ∷ xs) (f, fs) (d, ds) =
    elim (Bool-cases (leb m.created_seq x.created_seq)) [
      | inl e ↦ rw e ((f, fs), (d, ds))
      | inr e ↦ rw e (
        All-insert_by_seq (λ y. key y ≢ key x) m xs (λ p. f (sym p)) d,
        insert_by_seq-HasDistinctKeys m xs fs ds,
      )
    ]

pub sort_by_seq-HasDistinctKeys :
    (ms : List Message) → HasDistinctKeys ms → HasDistinctKeys (sort_by_seq ms)
unfolding sort_by_seq
sort_by_seq-HasDistinctKeys [] d = tt
sort_by_seq-HasDistinctKeys (m ∷ ms) (f, d) =
    insert_by_seq-HasDistinctKeys m (sort_by_seq ms) (All-sort_by_seq _ ms f)
      (sort_by_seq-HasDistinctKeys ms d)

find-insert_by_seq :
    (k : String) (m : Message) (ms : List Message)
    → IsFresh (key m) ms
    → find k (insert_by_seq m ms) ≡ (if str_eq (key m) k then some m else find k ms)
unfolding insert_by_seq find
find-insert_by_seq k m [] f = refl
find-insert_by_seq k m (x ∷ xs) (f, fs) =
    ground (arith, find-insert_by_seq k m xs fs, eq_iff (key m) k, eq_iff (key x) k)

pub find-sort_by_seq :
    (k : String) (ms : List Message) → HasDistinctKeys ms → find k (sort_by_seq ms) ≡ find k ms
unfolding sort_by_seq find
find-sort_by_seq k [] d = refl
find-sort_by_seq k (m ∷ ms) (f, d) =
    find-insert_by_seq k m (sort_by_seq ms) (All-sort_by_seq _ ms f)
    ∙ ap (λ o. if str_eq (key m) k then some m else o) (find-sort_by_seq k ms d)

-- ===== src/Store/Kept.antt =====
-- What the parts of the state of packages/core/src/store.ts keep: feeds under a change of their
-- messages, and sets of ids under `add` and `delete`.
use comamessenger.Prelude.{
  ℕ, ◌≤◌, String, ◌≡◌, ◌≢◌, inl, inr, List, [], ◌∷◌, map, arith, str_eq, eq_iff, Bool-cases,
  Option-cases, All,
}
use comamessenger.Prelude.Dict.{Dict, lookup, AllEntries, AllEntries-lookup}
use comamessenger.Wire.{Message}
use comamessenger.Store.Merge.{key}
use comamessenger.Store.Feed.{IsSorted, IsFresh, HasDistinctKeys, IsFeed}
use comamessenger.Store.State.{mark_retrying, mark_failed, set_add, set_delete, typists}

abbrev pub HasNoRepeat : List String → Type 0
HasNoRepeat [] = Unit
HasNoRepeat (a ∷ ids) = All (λ b. b ≢ a) ids × HasNoRepeat ids

-- A change of messages that keeps their keys and sequence numbers keeps a feed.
module _ (f : Message → Message) (same_key : (m : Message) → key (f m) ≡ key m)
    (same_seq : (m : Message) → (f m).created_seq ≡ m.created_seq) where
  pub map-IsSorted_first :
      (n : ℕ) (ms : List Message)
      → All (λ x. n ≤ x.created_seq) ms
      → All (λ x. n ≤ x.created_seq) (map f ms)
  map-IsSorted_first n [] h = tt
  map-IsSorted_first n (m ∷ ms) h = (rw (same_seq m) h.0, map-IsSorted_first n ms h.1)

  pub map-IsSorted : (ms : List Message) → IsSorted ms → IsSorted (map f ms)
  map-IsSorted [] h = tt
  map-IsSorted (m ∷ ms) h =
      (rw (same_seq m) (map-IsSorted_first m.created_seq ms h.0), map-IsSorted ms h.1)

  pub map-IsFresh : (k : String) (ms : List Message) → IsFresh k ms → IsFresh k (map f ms)
  map-IsFresh k [] h = tt
  map-IsFresh k (m ∷ ms) h = (rw (same_key m) h.0, map-IsFresh k ms h.1)

  pub map-HasDistinctKeys : (ms : List Message) → HasDistinctKeys ms → HasDistinctKeys (map f ms)
  map-HasDistinctKeys [] h = tt
  map-HasDistinctKeys (m ∷ ms) h =
      (rw (same_key m) (map-IsFresh (key m) ms h.0), map-HasDistinctKeys ms h.1)

  pub map-IsFeed : (ms : List Message) → IsFeed ms → IsFeed (map f ms)
  map-IsFeed ms h = record {
    sorted = map-IsSorted ms h.sorted;
    distinct = map-HasDistinctKeys ms h.distinct;
  }

pub key-mark_retrying : (id : String) (m : Message) → key (mark_retrying id m) ≡ key m
unfolding key mark_retrying
key-mark_retrying id m = ground arith

pub seq-mark_retrying :
    (id : String) (m : Message) → (mark_retrying id m).created_seq ≡ m.created_seq
unfolding mark_retrying
seq-mark_retrying id m = ground arith

pub key-mark_failed : (id code : String) (m : Message) → key (mark_failed id code m) ≡ key m
unfolding key mark_failed
key-mark_failed id code m = ground arith

pub seq-mark_failed :
    (id code : String) (m : Message) → (mark_failed id code m).created_seq ≡ m.created_seq
unfolding mark_failed
seq-mark_failed id code m = ground arith

pub set_add-ne :
    (a b : String) (ids : List String)
    → a ≢ b
    → All (λ x. x ≢ b) ids
    → All (λ x. x ≢ b) (set_add a ids)
unfolding set_add
set_add-ne a b [] n h = (n, tt)
set_add-ne a b (x ∷ xs) n (h, hs) = elim (Bool-cases (str_eq x a)) [
  | inl e ↦ rw e (h, hs)
  | inr e ↦ rw e (h, set_add-ne a b xs n hs)
]

pub set_add-HasNoRepeat :
    (a : String) (ids : List String) → HasNoRepeat ids → HasNoRepeat (set_add a ids)
unfolding set_add
set_add-HasNoRepeat a [] h = (tt, tt)
set_add-HasNoRepeat a (x ∷ xs) (h, hs) = elim (Bool-cases (str_eq x a)) [
  | inl e ↦ rw e (h, hs)
  | inr e ↦
      rw e (set_add-ne a x xs (λ p. ground (arith, eq_iff x a)) h, set_add-HasNoRepeat a xs hs)
]

pub set_delete-ne :
    (a b : String) (ids : List String) → All (λ x. x ≢ b) ids → All (λ x. x ≢ b) (set_delete a ids)
unfolding set_delete
set_delete-ne a b [] h = tt
set_delete-ne a b (x ∷ xs) (h, hs) = elim (Bool-cases (str_eq x a)) [
  | inl e ↦ rw e (set_delete-ne a b xs hs)
  | inr e ↦ rw e (h, set_delete-ne a b xs hs)
]

pub set_delete-HasNoRepeat :
    (a : String) (ids : List String) → HasNoRepeat ids → HasNoRepeat (set_delete a ids)
unfolding set_delete
set_delete-HasNoRepeat a [] h = tt
set_delete-HasNoRepeat a (x ∷ xs) (h, hs) = elim (Bool-cases (str_eq x a)) [
  | inl e ↦ rw e (set_delete-HasNoRepeat a xs hs)
  | inr e ↦ rw e (set_delete-ne a x xs h, set_delete-HasNoRepeat a xs hs)
]

pub typists-HasNoRepeat :
    (chat_id : String) (typing : Dict (List String))
    → AllEntries (λ _ ids. HasNoRepeat ids) typing
    → HasNoRepeat (typists chat_id typing)
unfolding typists
typists-HasNoRepeat chat_id typing h = elim (Option-cases (lookup chat_id typing)) [
  | inl e ↦ rw (e, typists) tt
  | inr (ids, e) ↦ rw (e, typists) (AllEntries-lookup _ chat_id ids typing e h)
]

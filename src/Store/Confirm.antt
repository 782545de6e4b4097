-- ===== src/Store/Confirm.antt =====
-- The message that the server confirms takes the place of the one that was shown before: `reconcile`
-- of packages/core/src/store.ts.
use comamessenger.Prelude.{
  ℕ, suc, ◌≤◌, String, ◌≡◌, ◌≢◌, refl, sym, ap, ◌∙◌, inl, inr, Option, none, some, Bool, false,
  List, [], ◌∷◌, arith, str_eq, eq_iff, eq_refl, if◌then◌else◌, Bool-cases, All,
}
use comamessenger.Prelude.Dict.{lookup, lookup-insert}
use comamessenger.Wire.{Message}
use comamessenger.Store.Merge.{
  key, spread, spread_on, is_same, upsert, deliver, feed, unique_sorted, reconcile_message,
}
use comamessenger.Store.Feed.{IsFresh, HasDistinctKeys, IsFeed, find, merged}
use comamessenger.Store.Unique.{find-unique_sorted}
use comamessenger.Store.State.{State, reconcile}

-- Of the messages of a list, those with an id.
abbrev pub HasIds : List Message → Type 0
HasIds = All (λ m. m.id ≢ "")

abbrev pub HasNoSame : Message → List Message → Type 0
HasNoSame m = All (λ x. is_same m x ≡ false)

-- How many messages of the list have the id or the client id of the message.
unfoldable pub count_same : Message → List Message → ℕ
count_same m [] = 0
count_same m (x ∷ xs) = let rest = count_same m xs in if is_same m x then suc rest else rest

none_same : (m : Message) (xs : List Message) → count_same m xs ≤ 0 → HasNoSame m xs
unfolding count_same
none_same m [] h = tt
none_same m (x ∷ xs) h = elim (Bool-cases (is_same m x)) [
  | inl e ↦ absurd (ground arith)
  | inr e ↦ (e, none_same m xs (ground arith))
]

unfoldable pub find_same : Message → List Message → Option Message
find_same m [] = none
find_same m (x ∷ xs) = if is_same m x then some x else find_same m xs

-- Whether the key is that of the message, if there is one.
abbrev pub is_key_of : Option Message → String → Bool
is_key_of none k = false
is_key_of (some m) k = str_eq (key m) k

key_of_id : (m : Message) → m.id ≢ "" → key m ≡ m.id
unfolding key
key_of_id m h = ground (arith, eq_iff m.id "")

-- A list with distinct keys merges nothing.
merged_fresh :
    (k : String) (o : Option Message) (ms : List Message) → IsFresh k ms → merged k o ms ≡ o
unfolding merged
merged_fresh k o [] f = refl
merged_fresh k o (m ∷ ms) (f, fs) = ground (arith, eq_iff (key m) k, merged_fresh k o ms fs)

merged_distinct :
    (k : String) (ms : List Message) → HasDistinctKeys ms → merged k none ms ≡ find k ms
unfolding merged find
merged_distinct k [] d = refl
merged_distinct k (m ∷ ms) (f, d) = elim (Bool-cases (str_eq (key m) k)) [
  | inl e ↦ rw e (
      merged_fresh k (some (spread_on none m)) ms (rw (sym ((eq_iff (key m) k).0 e)) f)
      ∙ unfold spread_on in refl)
  | inr e ↦ rw e (merged_distinct k ms d)
]

module _ (d : Message) (has_id : d.id ≢ "") where
  key_other : (x : Message) → x.id ≢ "" → is_same d x ≡ false → key x ≢ d.id
  unfolding is_same
  key_other x h n e = ground (arith, key_of_id x h, eq_iff x.id d.id)

  IsFresh-other : (xs : List Message) → HasIds xs → HasNoSame d xs → IsFresh d.id xs
  IsFresh-other [] h n = tt
  IsFresh-other (x ∷ xs) (h, hs) (n, ns) = (key_other x h n, IsFresh-other xs hs ns)

  upsert-IsFresh :
      (k : String) (xs : List Message) → k ≢ d.id → IsFresh k xs → IsFresh k (upsert d xs)
  unfolding upsert
  upsert-IsFresh k [] n f = (λ e. n (sym e ∙ key_of_id d has_id), tt)
  upsert-IsFresh k (x ∷ xs) n (f, fs) = elim (Bool-cases (is_same d x)) [
    | inl e ↦ rw e (λ p. n (sym p ∙ unfold key in key_of_id d has_id), fs)
    | inr e ↦ rw e (f, upsert-IsFresh k xs n fs)
  ]

  key-spread : (x : Message) → key (spread x d) ≡ d.id
  unfolding key spread
  key-spread x = ground (arith, eq_iff d.id "")

  upsert-HasDistinctKeys :
      (xs : List Message)
      → HasIds xs
      → count_same d xs ≤ 1
      → HasDistinctKeys xs
      → HasDistinctKeys (upsert d xs)
  unfolding upsert count_same
  upsert-HasDistinctKeys [] h o u = (tt, tt)
  upsert-HasDistinctKeys (x ∷ xs) (h, hs) o (f, u) = elim (Bool-cases (is_same d x)) [
    | inl e ↦ rw e (rw (key-spread x) (IsFresh-other xs hs (none_same d xs (ground arith))), u)
    | inr e ↦ rw e (
      upsert-IsFresh (key x) xs (key_other x h e) f,
      upsert-HasDistinctKeys xs hs (ground arith) u,
    )
  ]

  find_fresh : (k : String) (xs : List Message) → IsFresh k xs → find k xs ≡ none
  unfolding find
  find_fresh k [] f = refl
  find_fresh k (x ∷ xs) (f, fs) = ground (arith, eq_iff (key x) k, find_fresh k xs fs)

  find_same_fresh :
      (k : String) (xs : List Message) → IsFresh k xs → is_key_of (find_same d xs) k ≡ false
  unfolding find_same
  find_same_fresh k [] f = refl
  find_same_fresh k (x ∷ xs) (f, fs) = elim (Bool-cases (is_same d x)) [
    | inl e ↦ rw e (ground (arith, eq_iff (key x) k))
    | inr e ↦ rw e (find_same_fresh k xs fs)
  ]

  find-upsert :
      (k : String) (xs : List Message)
      → HasIds xs
      → count_same d xs ≤ 1
      → HasDistinctKeys xs
      → find k (upsert d xs) ≡ (
          if str_eq d.id k
          then some (spread_on (find_same d xs) d)
          else if is_key_of (find_same d xs) k
          then none
          else find k xs)
  unfolding upsert count_same find_same find spread_on
  find-upsert k [] h o u = rw (key_of_id d has_id)
  find-upsert k (x ∷ xs) (h, hs) o (f, u) = elim (Bool-cases (is_same d x)) [
    | inl e ↦ rw (e, key-spread x) (ground (arith, eq_iff (key x) k, find_fresh (key x) xs f))
    | inr e ↦
        rw (e, find-upsert k xs hs (ground arith) u)
          (ground
            (arith, eq_iff (key x) k, eq_iff d.id k, key_other x h e, find_same_fresh (key x) xs f))
  ]

-- For a confirmed message with an id, in a chat whose messages have ids and of which at most one has
-- its id or its client id: that one (the message that was shown on sending, say) is gone from under
-- its old key, the message stands under its own id, delivered and spread over that one, and under
-- every other key the chat holds what it held. No other chat is changed.
pub reconcile_lem :
    (m : Message) (s : State)
    → m.id ≢ ""
    → IsFeed (feed m.chat_id s.messages)
    → HasIds (feed m.chat_id s.messages)
    → count_same (deliver m) (feed m.chat_id s.messages) ≤ 1
    → ((k : String)
        → find k (feed m.chat_id (reconcile m s).messages) ≡ (
            if str_eq m.id k
            then some (spread_on (find_same (deliver m) (feed m.chat_id s.messages)) (deliver m))
            else if is_key_of (find_same (deliver m) (feed m.chat_id s.messages)) k
            then none
            else find k (feed m.chat_id s.messages)))
      × ((chat_id : String)
          → lookup chat_id (reconcile m s).messages ≡ (
              if str_eq m.chat_id chat_id
              then some (feed m.chat_id (reconcile m s).messages)
              else lookup chat_id s.messages))
unfolding reconcile reconcile_message
reconcile_lem m s has_id ordered ids once = (
  λ k.
      ap (find k) stored
      ∙ find-unique_sorted k (upsert (deliver m) old)
      ∙ merged_distinct k _
          (upsert-HasDistinctKeys (deliver m) has_id old ids once ordered.distinct)
      ∙ find-upsert (deliver m) has_id k old ids once ordered.distinct,
  λ chat_id.
      lookup-insert m.chat_id chat_id (unique_sorted (upsert (deliver m) old)) s.messages
      ∙ ap (λ l. if str_eq m.chat_id chat_id then some l else lookup chat_id s.messages)
          (sym stored),
)
  where
    old : List Message
    old = feed m.chat_id s.messages

    stored : feed m.chat_id (reconcile m s).messages ≡ unique_sorted (upsert (deliver m) old)
    stored =
        rw
          (
            lookup-insert m.chat_id m.chat_id (unique_sorted (upsert (deliver m) old)) s.messages,
            feed,
          )
          (rw (eq_refl m.chat_id))

-- ===== src/Store/Unique.antt =====
-- `uniqueSorted` of packages/core/src/store.ts against its specification: a feed that holds, under
-- each key, the merge of the items with that key, and that changes nothing in a feed.
use mathlib.Core.List.{append-nil, append_assoc}
use comamessenger.Prelude.{
  String, ◌≡◌, refl, sym, ap, ◌∙◌, ◌≢◌, inl, inr, Option, none, some, List, [], ◌∷◌, ◌++◌, arith,
  le→leb, str_eq, eq_iff, if◌then◌else◌, All, ◌≤◌, Bool-cases,
}
use comamessenger.Prelude.Dict.{Dict, lookup, insert, lookup-insert}
use comamessenger.Wire.{Message}
use comamessenger.Store.Merge.{
  key, spread_on, put, put_all, values, insert_by_seq, sort_by_seq, unique_sorted,
}
use comamessenger.Store.Feed.{
  IsSorted, IsFresh, HasDistinctKeys, IsFeed, find, merged, sort_by_seq-IsSorted,
  sort_by_seq-HasDistinctKeys, find-sort_by_seq,
}

-- Each entry stands under the key of its message.
abbrev IsKeyed : Dict Message → Type 0
IsKeyed [] = Unit
IsKeyed ((k, m) ∷ ms) = (key m ≡ k) × IsKeyed ms

key-spread_on : (o : Option Message) (m : Message) → key (spread_on o m) ≡ key m
unfolding spread_on key
key-spread_on none m = refl
key-spread_on (some old) m = refl

insert-IsKeyed :
    (k : String) (m : Message) (d : Dict Message) → key m ≡ k → IsKeyed d → IsKeyed (insert k m d)
unfolding insert
insert-IsKeyed k m [] e h = (e, tt)
insert-IsKeyed k m ((j, x) ∷ d) e h = ground (arith, insert-IsKeyed k m d e h.1, eq_iff j k)

insert-IsFresh :
    (j k : String) (m : Message) (d : Dict Message)
    → key m ≢ j
    → IsFresh j (values d)
    → IsFresh j (values (insert k m d))
unfolding insert
insert-IsFresh j k m [] n h = (n, tt)
insert-IsFresh j k m ((i, x) ∷ d) n (f, h) = elim (Bool-cases (str_eq i k)) [
  | inl e ↦ rw e (n, h)
  | inr e ↦ rw e (f, insert-IsFresh j k m d n h)
]

insert-HasDistinctKeys :
    (k : String) (m : Message) (d : Dict Message)
    → key m ≡ k
    → IsKeyed d
    → HasDistinctKeys (values d)
    → HasDistinctKeys (values (insert k m d))
unfolding insert
insert-HasDistinctKeys k m [] e h u = (tt, tt)
insert-HasDistinctKeys k m ((j, x) ∷ d) e (q, h) (f, u) = elim (Bool-cases (str_eq j k)) [
  | inl same ↦ rw same (rw (e ∙ sym ((eq_iff j k).0 same) ∙ sym q) f, u)
  | inr other ↦ rw other (
    insert-IsFresh (key x) k m d (λ p. ground (arith, eq_iff j k)) f,
    insert-HasDistinctKeys k m d e h u,
  )
]

pub record IsTable (d : Dict Message) : Type 0 where
  pub keyed : IsKeyed d
  pub distinct : HasDistinctKeys (values d)

put-IsTable : (d : Dict Message) (m : Message) → IsTable d → IsTable (put d m)
unfolding put
put-IsTable d m t = record {
  keyed = insert-IsKeyed (key m) _ d (key-spread_on (lookup (key m) d) m) t.keyed;
  distinct =
      insert-HasDistinctKeys (key m) _ d (key-spread_on (lookup (key m) d) m) t.keyed t.distinct;
}

put_all-IsTable : (d : Dict Message) (ms : List Message) → IsTable d → IsTable (put_all d ms)
unfolding put_all
put_all-IsTable d [] t = t
put_all-IsTable d (m ∷ ms) t = put_all-IsTable (put d m) ms (put-IsTable d m t)

find-values : (k : String) (d : Dict Message) → IsKeyed d → find k (values d) ≡ lookup k d
unfolding find lookup
find-values k [] h = refl
find-values k ((j, m) ∷ d) (e, h) =
    rw e (ap (λ o. if str_eq j k then some m else o) (find-values k d h))

lookup-put :
    (k : String) (d : Dict Message) (m : Message)
    → lookup k (put d m)
      ≡ (if str_eq (key m) k then some (spread_on (lookup k d) m) else lookup k d)
unfolding put
lookup-put k d m = rw lookup-insert (ground (arith, eq_iff (key m) k))

lookup-put_all :
    (k : String) (d : Dict Message) (ms : List Message)
    → lookup k (put_all d ms) ≡ merged k (lookup k d) ms
unfolding put_all merged
lookup-put_all k d [] = refl
lookup-put_all k d (m ∷ ms) =
    lookup-put_all k (put d m) ms ∙ ap (λ o. merged k o ms) (lookup-put k d m)

IsTable-put_all : (ms : List Message) → IsTable (put_all [] ms)
IsTable-put_all ms = put_all-IsTable [] ms (record { keyed = tt; distinct = tt })

pub unique_sorted-IsFeed : (ms : List Message) → IsFeed (unique_sorted ms)
unfolding unique_sorted
unique_sorted-IsFeed ms = record {
  sorted = sort_by_seq-IsSorted (values (put_all [] ms));
  distinct = sort_by_seq-HasDistinctKeys (values (put_all [] ms)) (IsTable-put_all ms).distinct;
}

pub find-unique_sorted :
    (k : String) (ms : List Message) → find k (unique_sorted ms) ≡ merged k none ms
unfolding unique_sorted lookup
find-unique_sorted k ms =
    find-sort_by_seq k (values (put_all [] ms)) (IsTable-put_all ms).distinct
    ∙ find-values k (put_all [] ms) (IsTable-put_all ms).keyed
    ∙ lookup-put_all k [] ms

-- `uniqueSorted` returns a feed, ordered by sequence number with one message for each key, and the
-- message under a key is the merge, in order, of all the items that were given with that key.
pub unique_sorted_lem :
    (ms : List Message)
    → IsFeed (unique_sorted ms) × ((k : String) → find k (unique_sorted ms) ≡ merged k none ms)
unique_sorted_lem ms = (unique_sorted-IsFeed ms, λ k. find-unique_sorted k ms)

-- A feed is left as it is.

insert_absent :
    (k : String) (m : Message) (d : Dict Message)
    → lookup k d ≡ none
    → values (insert k m d) ≡ values d ++ m ∷ []
unfolding insert lookup
insert_absent k m [] h = refl
insert_absent k m ((j, x) ∷ d) h = elim (Bool-cases (str_eq j k)) [
  | inl e ↦ absurd (ground arith)
  | inr e ↦ rw e (ap (◌∷◌ x) (insert_absent k m d (ground arith)))
]

-- No key of the list is in the table.
abbrev IsApart : Dict Message → List Message → Type 0
IsApart d = All (λ m. lookup (key m) d ≡ none)

values-put_absent :
    (d : Dict Message) (m : Message)
    → lookup (key m) d ≡ none
    → values (put d m) ≡ values d ++ m ∷ []
unfolding put
values-put_absent d m h =
    ap (λ o. values (insert (key m) (spread_on o m) d)) h
    ∙ unfold spread_on in insert_absent (key m) m d h

put-IsApart :
    (d : Dict Message) (m : Message) (ms : List Message)
    → IsFresh (key m) ms
    → IsApart d ms
    → IsApart (put d m) ms
put-IsApart d m [] f h = tt
put-IsApart d m (x ∷ xs) (f, fs) (h, hs) =
    (ground (arith, lookup-put (key x) d m, eq_iff (key m) (key x)), put-IsApart d m xs fs hs)

values-put_all :
    (d : Dict Message) (ms : List Message)
    → HasDistinctKeys ms
    → IsApart d ms
    → values (put_all d ms) ≡ values d ++ ms
unfolding put_all
values-put_all d [] u h = sym (append-nil (values d))
values-put_all d (m ∷ ms) (f, u) (h, hs) =
    values-put_all (put d m) ms u (put-IsApart d m ms f hs)
    ∙ ap (λ l. l ++ ms) (values-put_absent d m h)
    ∙ append_assoc (values d) (m ∷ []) ms

insert_by_seq_first :
    (m : Message) (ms : List Message)
    → All (λ x. m.created_seq ≤ x.created_seq) ms
    → insert_by_seq m ms ≡ m ∷ ms
unfolding insert_by_seq
insert_by_seq_first m [] h = refl
insert_by_seq_first m (x ∷ xs) (h, hs) = rw (le→leb m.created_seq x.created_seq h)

sort_by_seq_sorted : (ms : List Message) → IsSorted ms → sort_by_seq ms ≡ ms
unfolding sort_by_seq
sort_by_seq_sorted [] h = refl
sort_by_seq_sorted (m ∷ ms) (h, hs) =
    ap (insert_by_seq m) (sort_by_seq_sorted ms hs) ∙ insert_by_seq_first m ms h

all-IsApart : (ms : List Message) → IsApart [] ms
unfolding lookup
all-IsApart [] = tt
all-IsApart (m ∷ ms) = (refl, all-IsApart ms)

-- A list that is a feed already is returned as it is, message for message.
pub unique_sorted_of_IsFeed : (ms : List Message) → IsFeed ms → unique_sorted ms ≡ ms
unfolding unique_sorted
unique_sorted_of_IsFeed ms h =
    ap sort_by_seq (values-put_all [] ms h.distinct (all-IsApart ms))
    ∙ sort_by_seq_sorted ms h.sorted

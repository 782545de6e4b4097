-- ===== src/Outbox/Delivery.antt =====
-- What a `flush` of packages/core/src/outbox.ts leaves in the queue and sends.
use comamessenger.Prelude.{
  ◌⊎◌, ◌+◌, String, ◌≡◌, refl, sym, ap, ◌∙◌, inl, inr, Option, none, some, Bool, true, false, ◌||◌,
  not, List, [], ◌∷◌, arith, str_eq, eq_iff, ltb, if◌then◌else◌, Bool-cases, Option-cases,
}
use comamessenger.Outbox.{
  Arrival, Listing, item_of, arrive, arrive_all, Item, id_of, store_put, store_delete, Posting,
  created, api_error, other_error, Round, Outbox, settle, send, send_all, flush,
}

unfoldable pub find : String → List Item → Option Item
find k [] = none
find k (x ∷ xs) = if str_eq (id_of x) k then some x else find k xs

find-store_put :
    (k : String) (v : Item) (xs : List Item)
    → find k (store_put v xs) ≡ (if str_eq (id_of v) k then some v else find k xs)
unfolding find store_put
find-store_put k v [] = refl
find-store_put k v (x ∷ xs) = ground (
  arith,
  find-store_put k v xs,
  eq_iff (id_of x) (id_of v),
  eq_iff (id_of x) k,
  eq_iff (id_of v) k,
)

find-store_delete :
    (k id : String) (xs : List Item)
    → find k (store_delete id xs) ≡ (if str_eq id k then none else find k xs)
unfolding find store_delete
find-store_delete k id [] = ground arith
find-store_delete k id (x ∷ xs) =
    ground (arith, find-store_delete k id xs, eq_iff (id_of x) id, eq_iff (id_of x) k, eq_iff id k)

abbrev pub again : Item → Item
again item = record item { attempts = item.attempts + 1 }

-- What a round leaves under the item's id, and whether the loop goes on.
abbrev pub outcome : Round → Item → Option Item → Option Item × Bool
outcome r item stored = elim r.posting [
  | created m ↦
      if r.deletes
      then (none, true)
      else if r.writes
      then (some (again item), true)
      else (stored, false)
  | api_error code ↦
      if str_eq code "idempotency_conflict"
      then if r.deletes then (none, true) else (stored, false)
      else if r.writes
      then (some (again item), true)
      else (stored, false)
  | other_error ↦ if r.writes then (some (again item), true) else (stored, false)
]

-- What stands under an id behind some calls of `enqueue`: the last of them with that id, if any.
abbrev pub arrived : List Arrival → String → Option Item → Option Item
arrived [] k stored = stored
arrived (a ∷ arrivals) k stored =
    arrived arrivals k (if str_eq (a.input.client_msg_id) k then some (item_of a) else stored)

-- What one round leaves under an id.
abbrev pub left_by : Round → Item → String → Option Item → Option Item
left_by r x k stored = arrived r.afterwards k (
    if str_eq (id_of x) k
    then (outcome r x (arrived r.meanwhile k stored)).0
    else arrived r.meanwhile k stored)

-- What is left under an id of the queue when the items have been sent.
unfoldable pub left : (Item → Round) → List Item → String → Option Item → Option Item
left answers [] k stored = stored
left answers (x ∷ xs) k stored =
    let stored' = left_by (answers x) x k stored in
    let rest = left answers xs k stored' in if (outcome (answers x) x none).1 then rest else stored'

pub find-arrive_all :
    (arrivals : List Arrival) (o : Outbox) (k : String)
    → find k (arrive_all arrivals o).items ≡ arrived arrivals k (find k o.items)
unfolding arrive_all arrive
find-arrive_all [] o k = refl
find-arrive_all (a ∷ arrivals) o k =
    find-arrive_all arrivals (arrive a o) k
    ∙ ap (arrived arrivals k) (find-store_put k (item_of a) o.items)

find-settle :
    (r : Round) (x : Item) (p : Posting) (o : Outbox) (k : String)
    → find k (settle r x p o).0.items ≡ (
        if str_eq (id_of x) k
        then (outcome (record r { posting = p }) x (find k o.items)).0
        else find k o.items)
unfolding settle
find-settle r x (created m) o k =
    ground (arith, find-store_put k (again x) o.items, find-store_delete k (id_of x) o.items)
find-settle r x (api_error code) o k =
    ground (arith, find-store_put k (again x) o.items, find-store_delete k (id_of x) o.items)
find-settle r x other_error o k =
    ground (arith, find-store_put k (again x) o.items, find-store_delete k (id_of x) o.items)

goes_on-settle :
    (r : Round) (x : Item) (p : Posting) (o : Outbox) (stored : Option Item)
    → (settle r x p o).1 ≡ (outcome (record r { posting = p }) x stored).1
unfolding settle
goes_on-settle r x (created m) o stored = ground arith
goes_on-settle r x (api_error code) o stored = ground arith
goes_on-settle r x other_error o stored = ground arith

find-send :
    (r : Round) (x : Item) (o : Outbox) (k : String)
    → find k (send r x o).0.items ≡ left_by r x k (find k o.items)
unfolding send
find-send r x o k = elim (Bool-cases (ltb 0 x.attempts)) [
  | inl e ↦ rw e (
      find-arrive_all r.afterwards _ k
      ∙ ap (arrived r.afterwards k)
          (find-settle r x r.posting _ k ∙ rw (find-arrive_all r.meanwhile _ k) refl))
  | inr e ↦ rw e (
      find-arrive_all r.afterwards _ k
      ∙ ap (arrived r.afterwards k)
          (find-settle r x r.posting _ k ∙ rw (find-arrive_all r.meanwhile _ k) refl))
]

goes_on-send : (r : Round) (x : Item) (o : Outbox) → (send r x o).1 ≡ (outcome r x none).1
unfolding send
goes_on-send r x o = goes_on-settle r x r.posting _ none

pub find-send_all :
    (answers : Item → Round) (items : List Item) (o : Outbox) (k : String)
    → find k (send_all answers items o).0.items ≡ left answers items k (find k o.items)
unfolding send_all left
find-send_all answers [] o k = refl
find-send_all answers (x ∷ xs) o k = elim (Bool-cases (send (answers x) x o).1) [
  | inl e ↦
      rw (e, sym (goes_on-send (answers x) x o) ∙ e)
        (find-send_all answers xs (send (answers x) x o).0 k
          ∙ ap (left answers xs k) (find-send (answers x) x o k))
  | inr e ↦ rw (e, sym (goes_on-send (answers x) x o) ∙ e) (find-send (answers x) x o k)
]

-- The server has the message: it created it now, or says that it had it before.
abbrev pub IsConfirmed : Posting → Type 0
IsConfirmed (created m) = Unit
IsConfirmed (api_error code) = code ≡ "idempotency_conflict"
IsConfirmed other_error = ⊥

outcome-none : (r : Round) (x y : Item) → (outcome r x (some y)).0 ≡ none → IsConfirmed r.posting
outcome-none r x y h = confirmed r.posting refl
  where
    confirmed : (p : Posting) → r.posting ≡ p → IsConfirmed p
    confirmed (created m) e = tt
    confirmed (api_error code) e = ground (arith, eq_iff code "idempotency_conflict")
    confirmed other_error e = ground arith

-- What is there stays there while other messages are enqueued.
arrived-some :
    (arrivals : List Arrival) (k : String) (x : Item)
    → (y : Item) × (arrived arrivals k (some x) ≡ some y)
arrived-some [] k x = (x, refl)
arrived-some (a ∷ arrivals) k x = elim (Bool-cases (str_eq a.input.client_msg_id k)) [
  | inl e ↦ rw e (arrived-some arrivals k (item_of a))
  | inr e ↦ rw e (arrived-some arrivals k x)
]

-- A round either keeps an item under the id, or its own item has that id and is confirmed.
left_by-some :
    (r : Round) (x : Item) (k : String) (y : Item)
    → ((z : Item) × (left_by r x k (some y) ≡ some z)) ⊎ ((id_of x ≡ k) × IsConfirmed r.posting)
left_by-some r x k y =
    let (m, e) = arrived-some r.meanwhile k y in
    elim (Bool-cases (str_eq (id_of x) k)) [
      | inr other ↦ rw (other, e) (inl (arrived-some r.afterwards k m))
      | inl same ↦ elim (Option-cases (outcome r x (some m)).0) [
        | inl gone ↦ inr ((eq_iff (id_of x) k).0 same, outcome-none r x m gone)
        | inr (z, kept) ↦ rw (same, e, kept) (inl (arrived-some r.afterwards k z))
      ]
    ]

left-none :
    (answers : Item → Round) (items : List Item) (k : String) (x : Item)
    → left answers items k (some x) ≡ none
    → (y : Item) × (id_of y ≡ k) × IsConfirmed (answers y).posting
unfolding left
left-none answers [] k x h = absurd (ground arith)
left-none answers (y ∷ ys) k x h = elim (left_by-some (answers y) y k x) [
  | inr (same, confirmed) ↦ (y, same, confirmed)
  | inl (z, kept) ↦ elim (Bool-cases (outcome (answers y) y none).1) [
    | inl on ↦ left-none answers ys k z (rw (on, kept) at h)
    | inr off ↦ absurd (ground (arith, rw (off, kept) at h))
  ]
]

abbrev pub is_blocked : Bool → Outbox → Bool
is_blocked has_token o = o.running || not has_token

-- An item leaves the queue in a `flush` only if the server has its message: some item with its id
-- was answered by the message or by an idempotency conflict. This holds in whatever order the
-- storage lists its items, whichever of its calls fail, and whatever is enqueued meanwhile.
pub flush_keeps :
    (list : List Item → Listing) (has_token : Bool) (answers : Item → Round) (o : Outbox)
    (k : String) (x : Item)
    → find k o.items ≡ some x
    → find k (flush list has_token answers o).0.items ≡ none
    → (y : Item) × (id_of y ≡ k) × IsConfirmed (answers y).posting
unfolding flush
flush_keeps list has_token answers o k x e h =
    let arrivals = (list o.items).arrivals in
    let started = arrive_all arrivals (record o { running = true }) in
    let (z, there) = arrived-some arrivals k x in
    let found : find k started.items ≡ some z =
      find-arrive_all arrivals (record o { running = true }) k
      ∙ ap (arrived arrivals k) e
      ∙ there in
    elim (Bool-cases (is_blocked has_token o)) [
      | inl blocked ↦ absurd (ground arith)
      | inr open_ ↦ elim (Option-cases (list o.items).listed) [
        | inl failed ↦ absurd (ground (arith, found, rw (open_, failed) at h))
        | inr (items, listed) ↦ left-none answers items k z (
            ap (left answers items k) (sym found)
            ∙ sym (find-send_all answers items started k)
            ∙ (rw (open_, listed) at h))
      ]
    ]

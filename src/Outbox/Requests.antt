-- ===== src/Outbox/Requests.antt =====
-- What a `flush` of packages/core/src/outbox.ts requests of the server.
use mathlib.Core.List.{append_assoc, append-nil}
use comamessenger.Prelude.{
  some, false, Option-cases, String, ◌≡◌, refl, sym, ap, ◌∙◌, inl, inr, Bool, true, List, [], ◌∷◌,
  ◌++◌, map, arith, ltb, if◌then◌else◌, Bool-cases,
}
use comamessenger.Outbox.{
  Input, Item, id_of, Arrival, Listing, arrive, arrive_all, placeholder, Call, optimistic,
  delivered, retrying, failed, posted, Posting, created, api_error, other_error, Round, Outbox,
  handle_error, settle, send, send_all, flush,
}
use comamessenger.Outbox.Delivery.{find, arrived, left, find-arrive_all, find-send_all, is_blocked}

-- The requests of a trace.
unfoldable pub posts : List Call → List (String × Input)
posts [] = []
posts (posted chat_id input ∷ cs) = (chat_id, input) ∷ posts cs
posts (_ ∷ cs) = posts cs

posts-append : (cs ds : List Call) → posts (cs ++ ds) ≡ posts cs ++ posts ds
unfolding posts
posts-append [] ds = refl
posts-append (posted chat_id input ∷ cs) ds = ap (◌∷◌ (chat_id, input)) (posts-append cs ds)
posts-append (Call.optimistic m ∷ cs) ds = posts-append cs ds
posts-append (Call.delivered m ∷ cs) ds = posts-append cs ds
posts-append (Call.retrying id ∷ cs) ds = posts-append cs ds
posts-append (Call.failed id code ∷ cs) ds = posts-append cs ds

abbrev pub request : Item → String × Input
request x = (x.chat_id, x.input)

-- The message that an arrival shows, for each of them.
abbrev pub shown : List Arrival → List Call
shown [] = []
shown (a ∷ arrivals) = optimistic (placeholder a.chat_id a.created_at a.input) ∷ shown arrivals

-- How a round that does not throw ends.
abbrev pub ending : Round → Item → Posting → Call
ending r x (created m) = if r.deletes then delivered m else failed (id_of x) "offline"
ending r x (api_error code) = failed (id_of x) code
ending r x other_error = failed (id_of x) "offline"

abbrev pub retried : Item → List Call
retried x = if ltb 0 x.attempts then retrying (id_of x) ∷ [] else []

-- All that a round calls: the item is told to be tried again if it was tried before, then requested,
-- then its end is told; and what arrives is shown.
abbrev pub calls_of : Round → Item → List Call
calls_of r x =
    retried x
    ++ (posted x.chat_id x.input ∷ (shown r.meanwhile ++ ending r x r.posting ∷ shown r.afterwards))

abbrev pub calls_of_all : (Item → Round) → List Item → List Call
calls_of_all answers [] = []
calls_of_all answers (x ∷ xs) = calls_of (answers x) x ++ calls_of_all answers xs

trace-arrive_all :
    (arrivals : List Arrival) (o : Outbox)
    → (arrive_all arrivals o).trace ≡ o.trace ++ shown arrivals
unfolding arrive_all arrive
trace-arrive_all [] o = sym (append-nil o.trace)
trace-arrive_all (a ∷ arrivals) o =
    trace-arrive_all arrivals (arrive a o)
    ∙ append_assoc o.trace (optimistic (placeholder a.chat_id a.created_at a.input) ∷ [])
        (shown arrivals)

running-arrive_all :
    (arrivals : List Arrival) (o : Outbox) → (arrive_all arrivals o).running ≡ o.running
unfolding arrive_all arrive
running-arrive_all [] o = refl
running-arrive_all (a ∷ arrivals) o = running-arrive_all arrivals (arrive a o)

trace-settle :
    (r : Round) (x : Item) (p : Posting) (o : Outbox)
    → (settle r x p o).1 ≡ true
    → (settle r x p o).0.trace ≡ o.trace ++ ending r x p ∷ []
unfolding settle handle_error
trace-settle r x (created m) o h = ground arith
trace-settle r x (api_error code) o h = ground arith
trace-settle r x other_error o h = ground arith

trace-begun :
    (x : Item) (o : Outbox)
    → (if ltb 0 x.attempts
        then record o { trace = o.trace ++ retrying (id_of x) ∷ [] }
        else o).trace
      ≡ o.trace ++ retried x
trace-begun x o = elim (Bool-cases (ltb 0 x.attempts)) [
  | inl e ↦ rw e refl
  | inr e ↦ rw e (sym (append-nil o.trace))
]

trace-send :
    (r : Round) (x : Item) (o : Outbox)
    → (send r x o).1 ≡ true
    → (send r x o).0.trace ≡ o.trace ++ calls_of r x
unfolding send
trace-send r x o h =
    trace-arrive_all r.afterwards _
    ∙ ap (λ l. l ++ shown r.afterwards)
        (trace-settle r x r.posting _ h
          ∙ ap (λ l. l ++ ending r x r.posting ∷ [])
              (trace-arrive_all r.meanwhile _
                ∙ ap (λ l. (l ++ posted x.chat_id x.input ∷ []) ++ shown r.meanwhile)
                    (trace-begun x o)))
    ∙ simp (append_assoc)

trace-send_all :
    (answers : Item → Round) (items : List Item) (o : Outbox)
    → (send_all answers items o).1 ≡ true
    → (send_all answers items o).0.trace ≡ o.trace ++ calls_of_all answers items
unfolding send_all
trace-send_all answers [] o h = sym (append-nil o.trace)
trace-send_all answers (x ∷ xs) o h = elim (Bool-cases (send (answers x) x o).1) [
  | inl e ↦ rw e (
      trace-send_all answers xs (send (answers x) x o).0 (rw e at h)
      ∙ ap (λ l. l ++ calls_of_all answers xs) (trace-send (answers x) x o e)
      ∙ append_assoc o.trace (calls_of (answers x) x) (calls_of_all answers xs))
  | inr e ↦ absurd (ground arith)
]

posts-shown : (arrivals : List Arrival) → posts (shown arrivals) ≡ []
unfolding posts
posts-shown [] = refl
posts-shown (a ∷ arrivals) = posts-shown arrivals

posts-ending : (r : Round) (x : Item) (p : Posting) → posts (ending r x p ∷ []) ≡ []
unfolding posts
posts-ending r x (created m) = by_deletion r.deletes
  where
    by_deletion :
        (b : Bool) → posts ((if b then delivered m else failed (id_of x) "offline") ∷ []) ≡ []
    by_deletion true = refl
    by_deletion false = refl
posts-ending r x (api_error code) = refl
posts-ending r x other_error = refl

posts-retried : (x : Item) → posts (retried x) ≡ []
unfolding posts
posts-retried x = elim (Bool-cases (ltb 0 x.attempts)) [ inl e ↦ rw e refl | inr e ↦ rw e refl ]

posts-calls_of : (r : Round) (x : Item) → posts (calls_of r x) ≡ request x ∷ []
unfolding posts
posts-calls_of r x =
    posts-append (retried x)
      (posted x.chat_id x.input ∷ (shown r.meanwhile ++ ending r x r.posting ∷ shown r.afterwards))
    ∙ rw (posts-retried x) (
        ap (◌∷◌ (request x)) (
          posts-append (shown r.meanwhile) (ending r x r.posting ∷ shown r.afterwards)
          ∙ rw (posts-shown r.meanwhile) (
              posts-append (ending r x r.posting ∷ []) (shown r.afterwards)
              ∙ rw (posts-ending r x r.posting) (posts-shown r.afterwards))))

posts-calls_of_all :
    (answers : Item → Round) (items : List Item)
    → posts (calls_of_all answers items) ≡ map request items
unfolding posts
posts-calls_of_all answers [] = refl
posts-calls_of_all answers (x ∷ xs) =
    posts-append (calls_of (answers x) x) (calls_of_all answers xs)
    ∙ rw (posts-calls_of (answers x) x, posts-calls_of_all answers xs) refl

-- What a `flush` does to a queue, which it finds blocked or not, and which it does not throw out of.
abbrev pub IsFlushed :
    Bool → (List Item → Listing) → (Item → Round) → Outbox → Outbox × Bool → Type 0
IsFlushed true list answers o r = r ≡ (o, true)
IsFlushed false list answers o r =
    (items : List Item) × ((list o.items).listed ≡ some items)
    × (r.0.trace ≡ (o.trace ++ shown (list o.items).arrivals) ++ calls_of_all answers items)
    × (posts r.0.trace ≡ posts o.trace ++ map request items)
    × ((k : String)
        → find k r.0.items
          ≡ left answers items k (arrived (list o.items).arrivals k (find k o.items)))
    × (r.0.running ≡ false)

-- A `flush` that finds another running, or that has no token, changes and calls nothing. Another one,
-- if no failure of the storage ends it, requests each listed item once, in the order of the list, with
-- just the calls for it that `calls_of` says, leaves under each id what `left` says, and clears
-- `running`, whatever is enqueued meanwhile.
pub flush_requests :
    (list : List Item → Listing) (has_token : Bool) (answers : Item → Round) (o : Outbox)
    → (flush list has_token answers o).1 ≡ true
    → IsFlushed (is_blocked has_token o) list answers o (flush list has_token answers o)
unfolding flush
flush_requests list has_token answers o h = elim (Bool-cases (is_blocked has_token o)) [
  | inl blocked ↦ rw blocked refl
  | inr open_ ↦ elim (Option-cases (list o.items).listed) [
    | inl none_listed ↦ absurd (ground (arith, rw (open_, none_listed) at h))
    | inr (items, listed) ↦
        let begun =
          trace-send_all answers items started (rw (open_, listed) at h)
          ∙ ap (λ l. l ++ calls_of_all answers items)
              (trace-arrive_all (list o.items).arrivals (record o { running = true })) in
        rw (open_, listed)
          (
            items,
            refl,
            begun,
            ap posts begun
                ∙ posts-append (o.trace ++ shown (list o.items).arrivals)
                    (calls_of_all answers items)
                ∙ rw
                    (
                      posts-append o.trace (shown (list o.items).arrivals),
                      posts-shown (list o.items).arrivals,
                      append-nil (posts o.trace),
                      posts-calls_of_all answers items,
                    )
                    refl,
            λ k.
                find-send_all answers items started k
                ∙ ap (left answers items k)
                    (find-arrive_all (list o.items).arrivals (record o { running = true }) k),
            refl,
          )
  ]
]
  where
    started : Outbox
    started = arrive_all (list o.items).arrivals (record o { running = true })

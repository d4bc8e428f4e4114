-- ===== src/EvalQueue/Reaped.antt =====
-- eval_queue.rs: what `reap_expired` leaves of the queue.
use nomad_rs.Base.{
  ℕ, ◌-◌, ◌<◌, Bool, true, false, String, ◌≡◌, ◌≢◌, refl, sym, ap, ◌∙◌, subst, Option, none, some,
  List, [], ◌∷◌, filter, length, ltb, leb, str_eq_refl, All, Any, In, first, further, All_of_In,
  arith, inl, inr, Option-cases, Bool-cases, String_discrete, dec_lt, lt→ltb, not-ltb, str_eq_ne,
  if◌then◌else◌,
}
use nomad_rs.Base.HashMap.{HashMap, get, get-All}
use nomad_rs.Error.{Result, ok}
use nomad_rs.Jobspec.{contains}
use nomad_rs.EvalQueue.{
  EvalQueue, Inner, PendingEval, max_dequeue, push_pending, give_back, reap, reap_expired, expired,
  is_expired,
}
use nomad_rs.EvalQueue.Delivery.{Inv, give_back-Inv, reap-give_back}
use nomad_rs.EvalQueue.Reaping.{
  get-give_back, get-reap_expired, contains-expired, is_up, reap_expired-nack_all, open_reaped,
}

-- A pending entry for the evaluation of the entry, which keeps the number of its deliveries.
pub record Again (p q : PendingEval) : Type 0 where
  pub eval : q.eval ≡ p.eval
  pub dequeues : q.dequeues ≡ p.dequeues
  pub idle : q.dequeued_at ≡ none

give_back-pending :
    (P : PendingEval → Type 0) (j : String) (i : Inner) → Any P i.heap → Any P (give_back j i).heap
unfolding give_back push_pending
give_back-pending P j i h = elim (Option-cases (get j i.in_flight)) [
  | inl e ↦ rw (e, give_back) h
  | inr (p, e) ↦ elim (Bool-cases (ltb p.dequeues max_dequeue)) [
    | inl b ↦ rw (e, give_back) (rw b (inr h))
    | inr b ↦ rw (e, give_back) (rw b h)
  ]
]

reap-pending :
    (P : PendingEval → Type 0) (ids : List String) (i : Inner)
    → Any P i.heap
    → Any P (reap ids i).heap
reap-pending P [] i h = unfold reap in h
reap-pending P (j ∷ ids) i h =
    rw (reap-give_back j ids i) (reap-pending P ids (give_back j i) (give_back-pending P j i h))

give_back-requeues :
    (id : String) (p : PendingEval) (i : Inner)
    → get id i.in_flight ≡ some p
    → p.dequeues < max_dequeue
    → Any (Again p) (give_back id i).heap
unfolding give_back push_pending
give_back-requeues id p i e l =
    rw (e, give_back)
      (rw (lt→ltb _ _ l) (inl (record { eval = refl; dequeues = refl; idle = refl })))

reap-requeues :
    (id : String) (p : PendingEval) (ids : List String) (i : Inner)
    → Inv i
    → contains id ids ≡ true
    → get id i.in_flight ≡ some p
    → p.dequeues < max_dequeue
    → Any (Again p) (reap ids i).heap
unfolding contains
reap-requeues id p [] i v c e l = absurd (ground (arith, c))
reap-requeues id p (j ∷ ids) i v c e l = elim (String_discrete j id) [
  | yes s ↦ rw (reap-give_back j ids i) (
      reap-pending (Again p) ids (give_back j i)
        (subst (λ k. Any (Again p) (give_back k i).heap) (sym s) (give_back-requeues id p i e l)))
  | no n ↦ rw (reap-give_back j ids i) (
      reap-requeues id p ids (give_back j i) (give_back-Inv j i v)
        (ground (arith, c, str_eq_ne j id n))
        (get-give_back j id i v.distinct ∙ (rw (str_eq_ne j id n) e)) l)
]

give_back-All :
    (P : PendingEval → Type 0) (j : String) (i : Inner)
    → All P i.heap
    → ((p q : PendingEval)
        → get j i.in_flight ≡ some p
        → p.dequeues < max_dequeue
        → Again p q
        → P q)
    → All P (give_back j i).heap
unfolding give_back push_pending
give_back-All P j i h f = elim (Option-cases (get j i.in_flight)) [
  | inl e ↦ rw (e, give_back) h
  | inr (p, e) ↦ elim (dec_lt p.dequeues max_dequeue) [
    | yes l ↦
        rw (e, give_back)
          (rw (lt→ltb _ _ l) (f p _ e l (record { eval = refl; dequeues = refl; idle = refl }), h))
    | no n ↦ rw (e, give_back) (rw (not-ltb _ _ n) h)
  ]
]

-- What holds of the pending entries, and of all that are made of what is reaped, holds of all that
-- are pending in the end.
reap-All :
    (P : PendingEval → Type 0) (ids : List String) (i : Inner)
    → Inv i
    → All P i.heap
    → ((id : String) (p q : PendingEval)
        → contains id ids ≡ true
        → get id i.in_flight ≡ some p
        → p.dequeues < max_dequeue
        → Again p q
        → P q)
    → All P (reap ids i).heap
unfolding contains
reap-All P [] i v h f = unfold reap in h
reap-All P (j ∷ ids) i v h f = rw (reap-give_back j ids i) (
    reap-All P ids (give_back j i) (give_back-Inv j i v)
      (give_back-All P j i h (λ p q e l a. f j p q (ground (arith, str_eq_refl j)) e l a))
      (λ id p q c e l a.
        f id p q (ground (arith, c)) (ground (arith, get-give_back j id i v.distinct, e)) l a))

In-Any : (q : PendingEval) (h : List PendingEval) → In q h → Any (λ x. x ≡ q) h
In-Any q [] m = elim m [ ]
In-Any q (_ ∷ _) (first xs) = inl refl
In-Any q (_ ∷ xs) (further y m) = inr (In-Any q xs m)

-- The entry was handed out more than the timeout ago.
abbrev pub overdue : ℕ → ℕ → PendingEval → Bool
overdue now timeout p = elim p.dequeued_at [ none ↦ false | some t ↦ ltb timeout (now - t) ]

-- The entry was not handed out exactly the timeout ago.
abbrev pub OffBoundary : ℕ → ℕ → PendingEval → Type 0
OffBoundary now timeout p = (t : ℕ) → p.dequeued_at ≡ some t → now - t ≢ timeout

is_expired-overdue :
    (now timeout : ℕ) (p : PendingEval)
    → OffBoundary now timeout p
    → is_expired now timeout p ≡ overdue now timeout p
unfolding is_expired
is_expired-overdue now timeout p n = by_time p.dequeued_at n
  where
    by_time :
        (o : Option ℕ)
        → ((t : ℕ) → o ≡ some t → now - t ≢ timeout)
        → (elim o as (λ _. Bool) [ none ↦ false | some t ↦ leb timeout (now - t) ])
          ≡ (elim o as (λ _. Bool) [ none ↦ false | some t ↦ ltb timeout (now - t) ])
    by_time none m = refl
    by_time (some t) m = ground (arith, m t refl)

length-expired :
    (now timeout : ℕ) (m : HashMap PendingEval)
    → All (λ e. OffBoundary now timeout e.1) m
    → length (expired now timeout m) ≡ length (filter (λ e. overdue now timeout e.1) m)
unfolding expired
length-expired now timeout [] n = refl
length-expired now timeout ((k, p) ∷ m) n =
    ground (arith, is_expired-overdue now timeout p n.0, length-expired now timeout m n.1)

-- Where a pending entry comes from: it was pending, or it stands again for one that was in flight,
-- overdue and below the delivery cap.
pub data Origin (now timeout : ℕ) (i : Inner) (q : PendingEval) : Type 0 where
  stayed : In q i.heap → Origin now timeout i q
  requeued :
      (id : String) (p : PendingEval)
      → get id i.in_flight ≡ some p
      → overdue now timeout p ≡ true
      → p.dequeues < max_dequeue
      → Again p q
      → Origin now timeout i q

-- What `reap_expired` leaves, and what it returns.
pub record Reaps (now timeout : ℕ) (i : Inner) (r : EvalQueue × Result ℕ) : Type 0 where
  pub counted : r.1 ≡ ok (length (filter (λ e. overdue now timeout e.1) i.in_flight))
  pub taken :
      (id : String) (p : PendingEval)
      → get id i.in_flight ≡ some p
      → get id r.0.inner.in_flight ≡ (if overdue now timeout p then none else some p)
  pub again :
      (id : String) (p : PendingEval)
      → get id i.in_flight ≡ some p
      → overdue now timeout p ≡ true
      → p.dequeues < max_dequeue
      → Any (Again p) r.0.inner.heap
  pub stays : All (λ q. Any (λ x. x ≡ q) r.0.inner.heap) i.heap
  pub origin : All (Origin now timeout i) r.0.inner.heap

module _ (now timeout : ℕ) (i : Inner) (v : Inv i)
    (n : All (λ e. OffBoundary now timeout e.1) i.in_flight) where
  off : (id : String) (p : PendingEval) → get id i.in_flight ≡ some p → OffBoundary now timeout p
  off id p e = get-All (OffBoundary now timeout) id p i.in_flight n e

  contains-overdue :
      (id : String) (p : PendingEval)
      → get id i.in_flight ≡ some p
      → contains id (expired now timeout i.in_flight) ≡ overdue now timeout p
  contains-overdue id p e =
      contains-expired now timeout id i.in_flight v.distinct
      ∙ ap (is_up now timeout) e
      ∙ is_expired-overdue now timeout p (off id p e)

  -- On a queue that is not poisoned and satisfies the invariant, with nothing in flight that was
  -- handed out exactly the timeout ago: `reap_expired` returns the number of the entries in flight
  -- that were handed out more than the timeout ago and takes them out, and only them; each of them
  -- below the delivery cap is pending again, with its evaluation and its number of deliveries; all
  -- that was pending still is, and nothing else is pending.
  pub reap_expired-Reaps :
      Reaps now timeout i (reap_expired now timeout (record { inner = i; poisoned = false }))
  reap_expired-Reaps = record {
    counted =
        ap (λ (r : EvalQueue × Result ℕ). r.1) (reap_expired-nack_all now timeout i)
        ∙ ap (λ k. ok k) (length-expired now timeout i.in_flight n);
    taken = λ id p e.
        get-reap_expired now timeout id i v
        ∙ rw e
            (ap (λ b. if b then none else some p) (is_expired-overdue now timeout p (off id p e)));
    again = λ id p e o l.
        rw (open_reaped now timeout i)
          (reap-requeues id p ids i v (contains-overdue id p e ∙ o) e l);
    stays =
        rw (open_reaped now timeout i)
          (All_of_In _ i.heap (λ q m. reap-pending (λ x. x ≡ q) ids i (In-Any q i.heap m)));
    origin = rw (open_reaped now timeout i) (
        reap-All (Origin now timeout i) ids i v (All_of_In _ i.heap (λ q m. stayed m))
          (λ id p q c e l a. requeued id p e (sym (contains-overdue id p e) ∙ c) l a));
  }
    where
      ids : List String
      ids = expired now timeout i.in_flight

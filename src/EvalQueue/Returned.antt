-- ===== src/EvalQueue/Returned.antt =====
-- eval_queue.rs: where an evaluation is after it was given back, reaped or unblocked.
use nomad_rs.Base.{
  ℕ, true, String, ◌≡◌, refl, sym, subst, some, List, [], ◌∷◌, ◌||◌, Any, arith, ◌⊎◌, inl, inr,
  Option-cases, Bool-cases, String_discrete, dec_lt, lt→ltb, ltb, str_eq, str_eq_refl,
}
use nomad_rs.Base.HashMap.{get, remove, get-All}
use nomad_rs.Jobspec.{contains}
use nomad_rs.Eval.{Evaluation}
use nomad_rs.EvalQueue.{
  Inner, PendingEval, max_dequeue, push_pending, give_back, reap, push_all, unblock_inner,
}
use nomad_rs.EvalQueue.Delivery.{Inv, redeliver, Flying, give_back-Inv, reap-give_back}
use nomad_rs.EvalQueue.Reaping.{get-give_back}
use nomad_rs.EvalQueue.Held.{
  InFlight, Kept, pending, in_flight, blocked, push_pending-Kept, push_pending-new, remove-Kept,
}

redeliver-Kept :
    (e : Evaluation) (n : ℕ) (p : PendingEval) (i : Inner) → Kept e n i → Kept e n (redeliver p i)
unfolding redeliver
redeliver-Kept e n p i h = elim (Bool-cases (ltb p.dequeues max_dequeue)) [
  | inl b ↦ rw b (push_pending-Kept e n p.eval p.dequeues i h)
  | inr b ↦ rw b h
]

-- Given back: it goes to the heap, unless it was handed out as often as the cap allows.
pub give_back-Kept :
    (e : Evaluation) (n : ℕ) (j : String) (i : Inner)
    → Inv i
    → Kept e n i
    → Kept e n (give_back j i) ⊎ ((j ≡ e.id) × (n ≡ max_dequeue) × InFlight e n i)
unfolding give_back redeliver
give_back-Kept e n j i v h = elim (Option-cases (get j i.in_flight)) [
  | inl k ↦ rw (k, give_back) (inl h)
  | inr (p, k) ↦ rw (k, give_back) (taken p k (String_discrete j e.id))
]
  where
    left : Inner
    left = record i { in_flight = remove j i.in_flight }

    at_id :
        (p : PendingEval)
        → get j i.in_flight ≡ some p
        → j ≡ e.id
        → Kept e n i
        → Kept e n (redeliver p left) ⊎ ((j ≡ e.id) × (n ≡ max_dequeue) × InFlight e n i)
    at_id p k same (pending m) = inl (redeliver-Kept e n p left (pending m))
    at_id p k same (blocked z m) = inl (redeliver-Kept e n p left (blocked z m))
    at_id p k same (in_flight q) =
        let found : q.entry ≡ p =
          entry_of e.id i q (subst (λ x. get x i.in_flight ≡ some p) same k) in
        elim (dec_lt p.dequeues max_dequeue) [
          | yes l ↦ inl (
              rw (lt→ltb _ _ l) (
                subst (λ x. Kept x n (push_pending p.eval p.dequeues left))
                  (subst (λ x. x.eval ≡ e) found q.holds.0)
                  (subst (λ m. Kept p.eval m (push_pending p.eval p.dequeues left))
                    (subst (λ x. x.dequeues ≡ n) found q.holds.1)
                    (push_pending-new p.eval p.dequeues left))))
          | no l ↦
              let f = get-All Flying j p i.in_flight v.flying k in
              let count : p.dequeues ≡ n = subst (λ x. x.dequeues ≡ n) found q.holds.1 in
              inr (same, omega (arith, f.capped, count), q)
        ]
      where
        entry_of :
            (id : String) (i : Inner) (q : InFlight e n i)
            → get e.id i.in_flight ≡ some p
            → q.entry ≡ p
        entry_of id i q k = ground (arith, q.there, k)

    taken :
        (p : PendingEval)
        → get j i.in_flight ≡ some p
        → Dec (j ≡ e.id)
        → Kept e n (redeliver p left) ⊎ ((j ≡ e.id) × (n ≡ max_dequeue) × InFlight e n i)
    taken p k (yes same) = at_id p k same h
    taken p k (no m) = inl (redeliver-Kept e n p left (remove-Kept e n j i m h))

-- What a `give_back` leaves in flight was in flight.
give_back-InFlight :
    (e : Evaluation) (n : ℕ) (j : String) (i : Inner)
    → Inv i
    → InFlight e n (give_back j i)
    → InFlight e n i
give_back-InFlight e n j i v h = record {
  entry = h.entry;
  there = ground (arith, get-give_back j e.id i v.distinct, h.there);
  holds = h.holds;
}

pub reap-Kept :
    (e : Evaluation) (n : ℕ) (ids : List String) (i : Inner)
    → Inv i
    → Kept e n i
    → Kept e n (reap ids i) ⊎ ((contains e.id ids ≡ true) × (n ≡ max_dequeue) × InFlight e n i)
reap-Kept e n [] i v h = unfold reap in inl h
reap-Kept e n (j ∷ ids) i v h =
    rw (reap-give_back j ids i)
      (after (give_back-Kept e n j i v h) (reap-Kept e n ids (give_back j i) (give_back-Inv j i v)))
  where
    after :
        Kept e n (give_back j i) ⊎ ((j ≡ e.id) × (n ≡ max_dequeue) × InFlight e n i)
        → (Kept e n (give_back j i)
            → Kept e n (reap ids (give_back j i))
              ⊎ ((contains e.id ids ≡ true) × (n ≡ max_dequeue) × InFlight e n (give_back j i)))
        → Kept e n (reap ids (give_back j i))
          ⊎ ((contains e.id (j ∷ ids) ≡ true) × (n ≡ max_dequeue) × InFlight e n i)
    after (inr (same, m, q)) f = inr (
      unfold contains in
          subst (λ k. str_eq j k || contains k ids ≡ true) same (rw (str_eq_refl j) refl),
      m,
      q,
    )
    after (inl k) f = elim (f k) [
      | inl l ↦ inl l
      | inr (c, m, q) ↦
          inr (unfold contains in ground (arith, c), m, give_back-InFlight e n j i v q)
    ]

push_all-Kept :
    (e : Evaluation) (n : ℕ) (es : List Evaluation) (i : Inner)
    → Kept e n i
    → Kept e n (push_all es i)
unfolding push_all
push_all-Kept e n [] i h = h
push_all-Kept e n (x ∷ es) i h =
    push_all-Kept e n es (push_pending x 0 i) (push_pending-Kept e n x 0 i h)

push_all-new :
    (e : Evaluation) (es : List Evaluation) (i : Inner)
    → Any (λ x. x ≡ e) es
    → Kept e 0 (push_all es i)
unfolding push_all
push_all-new e [] i h = elim h [ ]
push_all-new e (x ∷ es) i (inl same) =
    push_all-Kept e 0 es (push_pending x 0 i)
      (subst (λ k. Kept k 0 (push_pending x 0 i)) same (push_pending-new x 0 i))
push_all-new e (x ∷ es) i (inr h) = push_all-new e es (push_pending x 0 i) h

pub unblock-Kept : (e : Evaluation) (n : ℕ) (i : Inner) → Kept e n i → Kept e n (unblock_inner i).0
unfolding unblock_inner
unblock-Kept e n i (pending h) = push_all-Kept e n i.blocked _ (pending h)
unblock-Kept e n i (in_flight h) =
    push_all-Kept e n i.blocked _
      (in_flight (record { entry = h.entry; there = h.there; holds = h.holds }))
unblock-Kept e n i (blocked z h) =
    subst (λ m. Kept e m (unblock_inner i).0) (sym z) (push_all-new e i.blocked _ h)

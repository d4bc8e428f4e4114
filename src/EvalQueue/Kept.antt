-- ===== src/EvalQueue/Kept.antt =====
-- eval_queue.rs: no evaluation is lost, and none is handed out too often, over any calls.
use nomad_rs.Base.{
  ℕ, ◌+◌, ◌≤◌, true, String, ◌≡◌, sym, ◌∙◌, refl, subst, List, [], ◌∷◌, ◌++◌, Any-append, Any-last,
  ◌⊎◌, inl, inr, String_discrete, arith, str_eq_refl,
}
use nomad_rs.Base.HashMap.{remove}
use nomad_rs.Eval.{Evaluation}
use nomad_rs.EvalQueue.{
  Inner, new, max_dequeue, expired, is_expired, enqueue_inner, ack_inner, nack_inner, reap_inner,
  block_inner,
}
use nomad_rs.EvalQueue.Delivery.{
  Inv, Call, enqueues, blocks, dequeues, acks, nacks, reaps, unblocks, step, step-Inv, steps,
  steps-Inv, new-Inv,
}
use nomad_rs.EvalQueue.Reaping.{contains-expired, is_up}
use nomad_rs.EvalQueue.HandedOut.{hands, handed_out, adds, added, weight, weight-steps}
use nomad_rs.EvalQueue.Held.{
  InFlight, Kept, pending, in_flight, blocked, occurrences, push_pending-Kept, push_pending-new,
  dequeue-Kept, remove-Kept,
}
use nomad_rs.EvalQueue.Returned.{give_back-Kept, reap-Kept, unblock-Kept}

-- The calls by which an evaluation that was handed out n times leaves the queue, from in flight: an
-- `ack` of its id, and, when it was handed out as often as the cap allows, a `nack` of its id or a
-- `reap_expired` when its time is up.
pub data Drops (e : Evaluation) (n : ℕ) (i : Inner) : Call → Type 0 where
  acked : InFlight e n i → Drops e n i (acks e.id)
  given_up : InFlight e n i → n ≡ max_dequeue → Drops e n i (nacks e.id)
  timed_out :
      (now timeout : ℕ) (f : InFlight e n i)
      → n ≡ max_dequeue
      → is_expired now timeout f.entry ≡ true
      → Drops e n i (reaps now timeout)

ack-Kept :
    (e : Evaluation) (n : ℕ) (i : Inner)
    → Kept e n i
    → Kept e n (record i { in_flight = remove e.id i.in_flight }) ⊎ Drops e n i (acks e.id)
ack-Kept e n i (pending h) = inl (pending h)
ack-Kept e n i (in_flight h) = inr (acked h)
ack-Kept e n i (blocked z h) = inl (blocked z h)

-- A call keeps the evaluation and counts its delivery, or drops it.
step-Kept :
    (e : Evaluation) (n : ℕ) (c : Call) (i : Inner)
    → Inv i
    → occurrences e.id i ≤ 1
    → Kept e n i
    → Kept e (n + hands e.id c i) (step c i) ⊎ Drops e n i c
step-Kept e n c i v sole h = by_call c
  where
    same : (j : Inner) → Kept e n j → Kept e (n + 0) j
    same j k = subst (λ m. Kept e m j) (omega arith) k

    parked : (x : Evaluation) → Kept e n i → Kept e n (record i { blocked = i.blocked ++ x ∷ [] })
    parked x (pending k) = pending k
    parked x (in_flight k) =
        in_flight (record { entry = k.entry; there = k.there; holds = k.holds })
    parked x (blocked z k) = blocked z (Any-append _ i.blocked (x ∷ []) k)

    by_call : (c : Call) → Kept e (n + hands e.id c i) (step c i) ⊎ Drops e n i c
    by_call (enqueues x) = inl (unfold step enqueue_inner in same _ (push_pending-Kept e n x 0 i h))
    by_call (blocks x) = inl (unfold step block_inner in same _ (parked x h))
    by_call (dequeues now) = inl (unfold step in dequeue-Kept e n now i v sole h)
    by_call (acks j) = elim (String_discrete j e.id) [
      | yes k ↦ elim (ack-Kept e n i h) [
        | inl l ↦ inl (
            unfold step ack_inner in
            same _
              (subst (λ x. Kept e n (record i { in_flight = remove x i.in_flight })) (sym k) l))
        | inr d ↦ inr (subst (λ x. Drops e n i (acks x)) (sym k) d)
      ]
      | no k ↦ inl (unfold step ack_inner in same _ (remove-Kept e n j i k h))
    ]
    by_call (nacks j) = elim (give_back-Kept e n j i v h) [
      | inl k ↦ inl (unfold step nack_inner in same _ k)
      | inr (k, m, f) ↦ inr (subst (λ x. Drops e n i (nacks x)) (sym k) (given_up f m))
    ]
    by_call (reaps now timeout) = elim (reap-Kept e n (expired now timeout i.in_flight) i v h) [
      | inl k ↦ inl (unfold step reap_inner in same _ k)
      | inr (c, m, f) ↦ inr (
          timed_out now timeout f m (
            subst (λ o. is_up now timeout o ≡ true) f.there
              (sym (contains-expired now timeout e.id i.in_flight v.distinct) ∙ c)))
    ]
    by_call unblocks = inl (unfold step in same _ (unblock-Kept e n i h))

-- A call of the history that dropped the evaluation, in the state in which it was made, and with the
-- number of times that the evaluation was handed out until then.
pub data Dropped (e : Evaluation) : ℕ → List Call → Inner → Type 0 where
  here : (n : ℕ) (c : Call) (cs : List Call) (i : Inner) → Drops e n i c → Dropped e n (c ∷ cs) i
  later :
      (n : ℕ) (c : Call) (cs : List Call) (i : Inner)
      → Dropped e (n + hands e.id c i) cs (step c i)
      → Dropped e n (c ∷ cs) i

-- A call that does not add the id adds no entry with it.
occurrences-step :
    (id : String) (c : Call) (i : Inner)
    → Inv i
    → occurrences id (step c i) ≤ occurrences id i + adds id c
occurrences-step id c i v =
    let w = weight-steps (λ d. 1) id 0 (λ d h. omega arith) (c ∷ []) i v in
    unfold steps handed_out added in omega (arith, w)

steps-Kept :
    (e : Evaluation) (n : ℕ) (cs : List Call) (i : Inner)
    → Inv i
    → occurrences e.id i ≤ 1
    → added e.id cs ≡ 0
    → Kept e n i
    → Kept e (n + handed_out e.id cs i) (steps cs i) ⊎ Dropped e n cs i
unfolding steps handed_out added
steps-Kept e n [] i v sole a h = inl (subst (λ m. Kept e m i) (omega arith) h)
steps-Kept e n (c ∷ cs) i v sole a h = after (step-Kept e n c i v sole h) (
    steps-Kept e (n + hands e.id c i) cs (step c i) (step-Inv c i v)
      (omega (arith, occurrences-step e.id c i v, sole, a)) (omega (arith, a)))
  where
    after :
        Kept e (n + hands e.id c i) (step c i) ⊎ Drops e n i c
        → (Kept e (n + hands e.id c i) (step c i)
            → Kept e (n + hands e.id c i + handed_out e.id cs (step c i)) (steps cs (step c i))
              ⊎ Dropped e (n + hands e.id c i) cs (step c i))
        → Kept e (n + (hands e.id c i + handed_out e.id cs (step c i))) (steps cs (step c i))
          ⊎ Dropped e n (c ∷ cs) i
    after (inr d) f = inr (here n c cs i d)
    after (inl k) f = elim (f k) [
      | inl l ↦ inl (subst (λ m. Kept e m (steps cs (step c i))) (omega arith) l)
      | inr d ↦ inr (later n c cs i d)
    ]

-- The call adds the evaluation to the queue.
pub data Adds (e : Evaluation) : Call → Type 0 where
  enqueued : Adds e (enqueues e)
  parked : Adds e (blocks e)

step-Adds : (e : Evaluation) (c : Call) (i : Inner) → Adds e c → Kept e 0 (step c i)
unfolding step enqueue_inner block_inner
step-Adds e c i enqueued = push_pending-new e 0 i
step-Adds e c i parked = blocked refl (Any-last _ i.blocked e refl)

adds_once : (e : Evaluation) (c : Call) → Adds e c → adds e.id c ≡ 1
adds_once e c enqueued = rw (str_eq_refl e.id) refl
adds_once e c parked = rw (str_eq_refl e.id) refl

-- No evaluation is lost. After any calls on a new queue, one call of `enqueue` or `block` with an
-- evaluation, and any further calls, none of which adds an evaluation with its id: the evaluation is
-- in the queue, pending or in flight with as many deliveries counted as there were, or blocked and
-- never handed out; or one of the further calls dropped it from in flight, an `ack` of its id, or,
-- after it was handed out exactly `MAX_DEQUEUE` times, a `nack` of its id or a `reap_expired` when
-- its time is up.
pub added-Kept :
    (earlier further : List Call) (c : Call) (e : Evaluation)
    → Adds e c
    → added e.id earlier ≡ 0
    → added e.id further ≡ 0
    → let i = step c (steps earlier new.inner) in
      Kept e (handed_out e.id further i) (steps further i) ⊎ Dropped e 0 further i
added-Kept earlier further c e a before after =
    let i = steps earlier new.inner in
    let v = steps-Inv earlier new.inner new-Inv in
    let w = weight-steps (λ d. 1) e.id 0 (λ d h. omega arith) earlier new.inner new-Inv in
    let none_before : occurrences e.id i ≤ 0 = unfold weight new in omega (arith, w, before) in
    let r =
      steps-Kept e 0 further (step c i) (step-Inv c i v)
        (omega (arith, none_before, occurrences-step e.id c i v, adds_once e c a)) after
        (step-Adds e c i a) in
    elim r [
      | inl k ↦ inl (subst (λ m. Kept e m (steps further (step c i))) (omega arith) k)
      | inr d ↦ inr d
    ]

-- ===== src/EvalQueue/Methods.antt =====
-- eval_queue.rs: the methods of the queue against its delivery counts.
use nomad_rs.Base.{ℕ, String, ◌≡◌, refl, Bool-cases, inl, inr}
use nomad_rs.Error.{Result}
use nomad_rs.Eval.{Evaluation}
use nomad_rs.EvalQueue.{
  EvalQueue, Inner, locked, enqueue, dequeue, ack, nack, reap_expired, block, unblock_all,
  enqueue_inner, dequeue_inner, ack_inner, nack_inner, reap_inner, block_inner, unblock_inner,
}
use nomad_rs.EvalQueue.Delivery.{
  Inv, Call, step, step-Inv, enqueues, blocks, dequeues, acks, nacks, reaps, unblocks,
}

-- A method left the inner state as it was, on a poisoned mutex, or made one call.
pub data Moves (q r : EvalQueue) : Type 0 where
  stays : r.inner ≡ q.inner → Moves q r
  calls : (c : Call) → r.inner ≡ step c q.inner → Moves q r

pub Moves-Inv : (q r : EvalQueue) → Moves q r → Inv q.inner → Inv r.inner
Moves-Inv q r (stays e) h = rw e h
Moves-Inv q r (calls c e) h = rw e (step-Inv c q.inner h)

locked-Moves :
    {A : Type 0} (body : Inner → Inner × Result A) (c : Call) (q : EvalQueue)
    → (body q.inner).0 ≡ step c q.inner
    → Moves q (locked body q).0
unfolding locked
locked-Moves body c q e = elim (Bool-cases q.poisoned) [
  | inl p ↦ rw (p, locked) (stays refl)
  | inr p ↦ rw (p, locked) (calls c e)
]

module _ (q : EvalQueue) where
  pub enqueue-Moves : (e : Evaluation) → Moves q (enqueue e q).0
  unfolding enqueue step
  enqueue-Moves e = locked-Moves (enqueue_inner e) (enqueues e) q refl

  pub dequeue-Moves : (now : ℕ) → Moves q (dequeue now q).0
  unfolding dequeue step
  dequeue-Moves now = locked-Moves (dequeue_inner now) (dequeues now) q refl

  pub ack-Moves : (id : String) → Moves q (ack id q).0
  unfolding ack step
  ack-Moves id = locked-Moves (ack_inner id) (acks id) q refl

  pub nack-Moves : (id : String) → Moves q (nack id q).0
  unfolding nack step
  nack-Moves id = locked-Moves (nack_inner id) (nacks id) q refl

  pub reap_expired-Moves : (now timeout : ℕ) → Moves q (reap_expired now timeout q).0
  unfolding reap_expired step
  reap_expired-Moves now timeout = locked-Moves (reap_inner now timeout) (reaps now timeout) q refl

  pub block-Moves : (e : Evaluation) → Moves q (block e q).0
  unfolding block step
  block-Moves e = locked-Moves (block_inner e) (blocks e) q refl

  pub unblock_all-Moves : Moves q (unblock_all q).0
  unfolding unblock_all step
  unblock_all-Moves = locked-Moves (unblock_inner) (unblocks) q refl

module _ (q : EvalQueue) (h : Inv q.inner) where
  pub enqueue-Inv : (e : Evaluation) → Inv (enqueue e q).0.inner
  enqueue-Inv e = Moves-Inv q _ (enqueue-Moves q e) h

  pub dequeue-Inv : (now : ℕ) → Inv (dequeue now q).0.inner
  dequeue-Inv now = Moves-Inv q _ (dequeue-Moves q now) h

  pub ack-Inv : (id : String) → Inv (ack id q).0.inner
  ack-Inv id = Moves-Inv q _ (ack-Moves q id) h

  pub nack-Inv : (id : String) → Inv (nack id q).0.inner
  nack-Inv id = Moves-Inv q _ (nack-Moves q id) h

  pub reap_expired-Inv : (now timeout : ℕ) → Inv (reap_expired now timeout q).0.inner
  reap_expired-Inv now timeout = Moves-Inv q _ (reap_expired-Moves q now timeout) h

  pub block-Inv : (e : Evaluation) → Inv (block e q).0.inner
  block-Inv e = Moves-Inv q _ (block-Moves q e) h

  pub unblock_all-Inv : Inv (unblock_all q).0.inner
  unblock_all-Inv = Moves-Inv q _ (unblock_all-Moves q) h

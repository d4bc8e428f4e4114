-- ===== src/EvalQueue.antt =====
-- eval_queue.rs: the broker of evaluations. The mutex is the flag `poisoned`; `Instant::now()` is
-- the argument `now`, in nanoseconds, as is a timeout.
pub mod Heap
pub mod Delivery
pub mod Order
pub mod Reaping
pub mod Reaped
pub mod Methods
pub mod Reached
pub mod Held
pub mod Returned
pub mod HandedOut
pub mod Kept
use nomad_rs.Base.{
  ℕ, zero, suc, ◌+◌, ◌-◌, ◌%◌, Bool, true, false, String, Option, none, some, List, [], ◌∷◌, ◌++◌,
  length, filter, map, leb, ltb, ◌==◌, if◌then◌else◌,
}
use nomad_rs.Base.HashMap.{HashMap, get, insert, remove}
use nomad_rs.Error.{Error, runtime, Result, ok, err, ◌>>=◌, queue_poisoned}
use nomad_rs.Alloc.{EvalId}
use nomad_rs.Eval.{Evaluation}
pub use Heap.{PendingEval}
unfoldable pub use Heap.{cmp, pop}

abbrev pub max_dequeue : ℕ
max_dequeue = 3

abbrev pub u64_mod : ℕ
u64_mod = 18446744073709551616

abbrev pub u32_mod : ℕ
u32_mod = 4294967296

pub record Inner : Type 0 where
  pub heap : List PendingEval
  pub next_seq : ℕ
  pub in_flight : HashMap PendingEval
  pub blocked : List Evaluation

pub record EvalQueue : Type 0 where
  pub inner : Inner
  pub poisoned : Bool

pub record QueueDepth : Type 0 where
  pub pending : ℕ
  pub in_flight : ℕ
  pub blocked : ℕ

unfoldable pub new : EvalQueue
new = record {
  inner = record { heap = []; next_seq = 0; in_flight = []; blocked = [] };
  poisoned = false;
}

-- `let mut inner = self.lock()?;` before a body on the inner state.
unfoldable pub locked {ℓ} :
    {A : Type ℓ} → (Inner → Inner × Result A) → EvalQueue → EvalQueue × Result A
locked body q = elim q.poisoned [
  | true ↦ (q, err (runtime queue_poisoned))
  | false ↦ (record q { inner = (body q.inner).0 }, (body q.inner).1)
]

-- A push on the heap under a fresh sequence number.
unfoldable pub push_pending : Evaluation → ℕ → Inner → Inner
push_pending e dequeues i = record i {
  heap = record { seq = i.next_seq; eval = e; dequeues = dequeues; dequeued_at = none } ∷ i.heap;
  next_seq = (i.next_seq + 1) % u64_mod;
}

unfoldable pub enqueue_inner : Evaluation → Inner → Inner × Result (Unit {0})
enqueue_inner e i = (push_pending e 0 i, ok tt)

-- The popped entry as it goes in flight.
unfoldable pub deliver : ℕ → PendingEval → PendingEval
deliver now pe = record pe { dequeues = (pe.dequeues + 1) % u32_mod; dequeued_at = some now }

unfoldable pub dequeue_inner : ℕ → Inner → Inner × Result (Option Evaluation)
dequeue_inner now i = elim (pop i.heap) [
  | none ↦ (i, ok none)
  | some (pe, rest) ↦ (
    record i { heap = rest; in_flight = insert pe.eval.id (deliver now pe) i.in_flight },
    ok (some pe.eval),
  )
]

unfoldable pub ack_inner : String → Inner → Inner × Result (Unit {0})
ack_inner id i = (record i { in_flight = remove id i.in_flight }, ok tt)

-- The body of `nack`: what is removed from the in-flight set goes back on the heap, unless the
-- delivery cap is reached.
unfoldable pub give_back : String → Inner → Inner
give_back id i = elim (get id i.in_flight) [
  | none ↦ i
  | some pe ↦
      let left : Inner = record i { in_flight = remove id i.in_flight } in
      if ltb pe.dequeues max_dequeue then push_pending pe.eval pe.dequeues left else left
]

unfoldable pub nack_inner : String → Inner → Inner × Result (Unit {0})
nack_inner id i = (give_back id i, ok tt)

-- `t.elapsed() >= timeout`, for an entry that was handed out.
unfoldable pub is_expired : ℕ → ℕ → PendingEval → Bool
is_expired now timeout pe = elim pe.dequeued_at [ none ↦ false | some t ↦ leb timeout (now - t) ]

unfoldable pub expired : ℕ → ℕ → HashMap PendingEval → List EvalId
expired now timeout m = map (λ e. e.0) (filter (λ e. is_expired now timeout e.1) m)

-- The loop of `reap_expired`.
unfoldable pub reap : List EvalId → Inner → Inner
reap [] i = i
reap (id ∷ ids) i = elim (get id i.in_flight) [
  | none ↦ reap ids i
  | some pe ↦
      let left : Inner = record i { in_flight = remove id i.in_flight } in
      reap ids (if ltb pe.dequeues max_dequeue then push_pending pe.eval pe.dequeues left else left)
]

unfoldable pub reap_inner : ℕ → ℕ → Inner → Inner × Result ℕ
reap_inner now timeout i =
    let ids = expired now timeout i.in_flight in (reap ids i, ok (length ids))

unfoldable pub block_inner : Evaluation → Inner → Inner × Result (Unit {0})
block_inner e i = (record i { blocked = i.blocked ++ e ∷ [] }, ok tt)

-- The loop of `unblock_all`.
unfoldable pub push_all : List Evaluation → Inner → Inner
push_all [] i = i
push_all (e ∷ es) i = push_all es (push_pending e 0 i)

unfoldable pub unblock_inner : Inner → Inner × Result ℕ
unblock_inner i = (push_all i.blocked (record i { blocked = [] }), ok (length i.blocked))

-- The methods of `EvalQueue`.
unfoldable pub enqueue : Evaluation → EvalQueue → EvalQueue × Result (Unit {0})
unfolding locked enqueue_inner push_pending
enqueue e = locked (enqueue_inner e)

unfoldable pub dequeue : ℕ → EvalQueue → EvalQueue × Result (Option Evaluation)
unfolding locked dequeue_inner deliver pop
dequeue now = locked (dequeue_inner now)

unfoldable pub ack : String → EvalQueue → EvalQueue × Result (Unit {0})
unfolding locked ack_inner
ack id = locked (ack_inner id)

unfoldable pub nack : String → EvalQueue → EvalQueue × Result (Unit {0})
unfolding locked nack_inner give_back push_pending
nack id = locked (nack_inner id)

unfoldable pub reap_expired : ℕ → ℕ → EvalQueue → EvalQueue × Result ℕ
unfolding locked reap_inner reap expired is_expired push_pending
reap_expired now timeout = locked (reap_inner now timeout)

unfoldable pub block : Evaluation → EvalQueue → EvalQueue × Result (Unit {0})
unfolding locked block_inner
block e = locked (block_inner e)

unfoldable pub unblock_all : EvalQueue → EvalQueue × Result ℕ
unfolding locked unblock_inner push_all push_pending
unblock_all = locked unblock_inner

-- The counters are 0 on a poisoned mutex.
unfoldable pub len : EvalQueue → ℕ
len q = if q.poisoned then 0 else length q.inner.heap

unfoldable pub in_flight_len : EvalQueue → ℕ
in_flight_len q = if q.poisoned then 0 else length q.inner.in_flight

unfoldable pub blocked_len : EvalQueue → ℕ
blocked_len q = if q.poisoned then 0 else length q.inner.blocked

unfoldable pub is_empty : EvalQueue → Bool
unfolding len
is_empty q = len q == 0

unfoldable pub depth : EvalQueue → QueueDepth
depth q = elim q.poisoned [
  | true ↦ record { pending = 0; in_flight = 0; blocked = 0 }
  | false ↦ record {
    pending = length q.inner.heap;
    in_flight = length q.inner.in_flight;
    blocked = length q.inner.blocked;
  }
]

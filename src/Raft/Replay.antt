-- ===== src/Raft/Replay.antt =====
-- raft.rs: the log against the state machine.
use nomad_rs.Base.{
  ◌+◌, String, ◌≡◌, refl, ap, List, [], ◌∷◌, length, length-append, arith, ◌⊎◌, inl, inr,
}
use nomad_rs.Error.{Error, Result, ok, err, ◌>>=◌}
use nomad_rs.Fsm
use nomad_rs.Fsm.{Fsm, Command, apply}
use nomad_rs.Fsm.Keeps.{apply-cases, apply-IsValid}
use nomad_rs.State.Valid.{IsValid, new-IsValid}
use nomad_rs.Raft.{RaftNode, leader, new, bootstrap, push, pop, propose, committed_index}

-- The state machine after one more command, if that command is accepted.
pub step : Fsm → Command → Result Fsm
step f c = elim ((apply c f).1) [ ok _ ↦ ok (apply c f).0 | err e ↦ err e ]

Result-cases : (r : Result Fsm) → ((f : Fsm) × (r ≡ ok f)) ⊎ ((e : Error) × (r ≡ err e))
Result-cases (ok f) = inl (f, refl)
Result-cases (err e) = inr (e, refl)

-- The log applied in order; the first rejected command ends the run.
unfoldable pub replay : Fsm → List Command → Result Fsm
replay f [] = ok f
replay f (c ∷ cs) = step f c >>= λ g. replay g cs

replay-push :
    (f g : Fsm) (cs : List Command) (c : Command)
    → replay f cs ≡ ok g
    → replay f (push c cs) ≡ step g c
unfolding replay push
replay-push f g [] c h = ground (arith, h)
replay-push f g (d ∷ cs) c h = elim (Result-cases (step f d)) [
  | inl (k, e) ↦ rw e (replay-push k g cs c (rw e at h))
  | inr (x, e) ↦ let stopped : err x ≡ ok g = rw e at h in cc stopped
]

pop-push {ℓ} : {A : Type ℓ} (a : A) (xs : List A) → pop (push a xs) ≡ xs
unfolding pop push
pop-push a [] = refl
pop-push a (x ∷ []) = refl
pop-push a (x ∷ y ∷ xs) = ap (◌∷◌ x) (pop-push a (y ∷ xs))

length-push {ℓ} : {A : Type ℓ} (a : A) (xs : List A) → length (push a xs) ≡ length xs + 1
unfolding push
length-push a xs = length-append xs (a ∷ [])

-- The log replays from the empty state to the node's own, without a rejection.
abbrev pub Replays : RaftNode → Type 0
Replays n = replay Fsm.new n.log ≡ ok n.fsm

-- A proposal that fails, on a follower or by a rejection, leaves the node as it was: role, log
-- and state machine.
pub propose_failed :
    (c : Command) (n : RaftNode) {x : Error} → (propose c n).1 ≡ err x → (propose c n).0 ≡ n
unfolding propose
propose_failed c n h = ground (arith, pop-push c n.log, apply-cases c n.fsm)

-- After any proposal the log still replays to the state machine.
pub propose-Replays : (c : Command) (n : RaftNode) → Replays n → Replays (propose c n).0
unfolding propose step
propose-Replays c n h =
    ground (arith, pop-push c n.log, apply-cases c n.fsm, replay-push Fsm.new n.fsm n.log c h)

-- A proposal that returns Ok was made to a leader and its command is accepted by the state machine:
-- the log has one more entry, the command, and the state machine has applied it.
pub propose-ok :
    (c : Command) (n : RaftNode)
    → (propose c n).1 ≡ ok tt
    → (n.role ≡ leader)
      × ((apply c n.fsm).1 ≡ ok tt)
      × ((propose c n).0 ≡ record n { log = push c n.log; fsm = (apply c n.fsm).0 })
      × (committed_index (propose c n).0 ≡ committed_index n + 1)
unfolding propose committed_index
propose-ok c n h = ground (arith, length-push c n.log)

pub propose-IsValid :
    (c : Command) (n : RaftNode) → IsValid n.fsm.state → IsValid (propose c n).0.fsm.state
unfolding propose
propose-IsValid c n h = ground (arith, apply-cases c n.fsm, apply-IsValid c n.fsm h, h)

-- The proposals in order, each error ignored.
pub run : RaftNode → List Command → RaftNode
run n [] = n
run n (c ∷ cs) = run (propose c n).0 cs

run-Replays :
    (n : RaftNode) (cs : List Command)
    → Replays n
    → IsValid n.fsm.state
    → Replays (run n cs) × IsValid (run n cs).fsm.state
unfolding run
run-Replays n [] h v = (h, v)
run-Replays n (c ∷ cs) h v =
    run-Replays (propose c n).0 cs (propose-Replays c n h) (propose-IsValid c n v)

-- After any proposals to a bootstrap node, its log replays without a rejection from the empty
-- state to exactly its state machine, whose store satisfies the invariant.
pub run-bootstrap :
    (id : String) (cs : List Command)
    → Replays (run (bootstrap id) cs) × IsValid (run (bootstrap id) cs).fsm.state
unfolding bootstrap new replay
run-bootstrap id cs = run-Replays _ cs refl new-IsValid

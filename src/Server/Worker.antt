-- ===== src/Server/Worker.antt =====
-- server.rs: one step of the scheduler worker.
use nomad_rs.Base.{
  ℕ, Bool, true, false, ◌&&◌, Bool-cases, inl, inr, ◌≡◌, refl, sym, ◌∙◌, ap, Option, none, some,
  List, [], ◌∷◌, ◌++◌, map, All, arith,
}
use mathlib.Core.List.{append-nil, append_assoc}
use nomad_rs.Constraint.{Matchers}
use nomad_rs.Error.{Result, ok, err}
use nomad_rs.Alloc.{Allocation}
use nomad_rs.Eval.{Evaluation}
use nomad_rs.EvalQueue.{EvalQueue, dequeue}
use nomad_rs.EvalQueue.Delivery.{Inv}
use nomad_rs.EvalQueue.Methods.{
  dequeue-Inv, reap_expired-Inv, block-Inv, ack-Inv, nack-Inv, dequeue-Moves, reap_expired-Moves,
  block-Moves, ack-Moves, nack-Moves,
}
use nomad_rs.EvalQueue.Reached.{Reached, Moves-Reached}
use nomad_rs.Base.Int.{pos, ltb_ℤ}
use nomad_rs.Fsm.{upsert_alloc}
use nomad_rs.Fsm.Keeps.{apply_ok_iff}
use nomad_rs.Raft.{RaftNode, RaftRole, leader, is_leader, propose, push, state}
use nomad_rs.Scheduler.{Plan, desired_count}
use nomad_rs.Scheduler.Float.{F64}
use nomad_rs.Scheduler.Drain.Accepts.{Valid, plan-Valid}
use nomad_rs.Rpc.{RpcEndpoint}
use nomad_rs.Rpc.Sound.{Sound, propose-Sound, role-propose}
use nomad_rs.Server.{
  Phase, polling, checking, sleeping, reaping, taking, holding, planned, committed, parking, acking,
  refused, finished, commit_allocs, visibility, is_none, taken, settled, worker_step,
}

-- The allocations that wait for their commit are valid, and no commit was refused.
abbrev pub OnCourse : Phase → Type 0
OnCourse (planned ev plan) = All Valid plan.allocs
OnCourse (refused ev) = leader ≡ RaftRole.follower
OnCourse _ = Unit

propose-Valid :
    (a : Allocation) (n : RaftNode)
    → n.role ≡ leader
    → Valid a
    → ((propose (upsert_alloc a) n).1 ≡ ok tt)
      × ((propose (upsert_alloc a) n).0.log ≡ push (upsert_alloc a) n.log)
unfolding propose
propose-Valid a n h v = ground (arith, (apply_ok_iff (upsert_alloc a) n.fsm).1 v)

-- What a whole commit leaves: no error, still the leader, and the log extended by the plan.
pub record Committed (xs : List Allocation) (s : RpcEndpoint) (r : RaftNode × Result (Unit {0}))
    : Type 0 where
  pub returned : r.1 ≡ ok tt
  pub leads : r.0.role ≡ leader
  pub sound : Sound (record s { raft = r.0 })
  pub logged : r.0.log ≡ s.raft.log ++ map (λ a. upsert_alloc a) xs

pub commit_allocs-Committed :
    (xs : List Allocation) (s : RpcEndpoint)
    → All Valid xs
    → s.raft.role ≡ leader
    → Sound s
    → Committed xs s (commit_allocs xs s.raft)
unfolding commit_allocs push
commit_allocs-Committed [] s v l h = record {
  returned = refl;
  leads = l;
  sound = h;
  logged = sym (append-nil s.raft.log);
}
commit_allocs-Committed (a ∷ xs) s v l h =
    let p = propose-Valid a s.raft l v.0 in
    let t : RpcEndpoint = record s { raft = (propose (upsert_alloc a) s.raft).0 } in
    by_result (propose (upsert_alloc a) s.raft).1 p.0
      (commit_allocs-Committed xs t v.1 (role-propose (upsert_alloc a) s.raft ∙ l)
        (propose-Sound (upsert_alloc a) s h))
      p.1
  where
    after : RaftNode
    after = (propose (upsert_alloc a) s.raft).0

    by_result :
        (r : Result (Unit {0}))
        → r ≡ ok tt
        → Committed xs (record s { raft = after }) (commit_allocs xs after)
        → after.log ≡ push (upsert_alloc a) s.raft.log
        → Committed (a ∷ xs) s (elim r as (λ _. RaftNode × Result (Unit {0})) [
          | ok _ ↦ commit_allocs xs after
          | err e ↦ (after, err e)
        ])
    by_result (err x) e g q = absurd (ground arith)
    by_result (ok u) e g q = record {
      returned = g.returned;
      leads = g.leads;
      sound = g.sound;
      logged =
          g.logged
          ∙ ap (λ l. l ++ map (λ b. upsert_alloc b) xs) q
          ∙ append_assoc s.raft.log (upsert_alloc a ∷ []) (map (λ b. upsert_alloc b) xs);
    }

-- A task at the phase, and what it shares.
pub record Working (r : Phase × RpcEndpoint) : Type 0 where
  pub on_course : OnCourse r.0
  pub leads : r.1.raft.role ≡ leader
  pub sound : Sound r.1

module _ (lib : Matchers) (fl : F64) where
  queue-Sound :
      (s : RpcEndpoint) {q : EvalQueue}
      → Sound s
      → Inv q.inner
      → Sound (record s { eval_queue = q })
  queue-Sound s h k = record { replays = h.replays; valid = h.valid; queue = k }

  settled-OnCourse :
      (ev : Evaluation) (plan : Plan) (r : Result (Unit {0}))
      → r ≡ ok tt
      → OnCourse (settled ev plan r)
  settled-OnCourse ev plan (ok u) e = tt
  settled-OnCourse ev plan (err x) e = absurd (ground arith)

  taken-OnCourse : (r : Result (Option Evaluation)) → OnCourse (taken r)
  taken-OnCourse (ok (some ev)) = tt
  taken-OnCourse (ok none) = tt
  taken-OnCourse (err e) = tt

  pub worker_step-Working :
      (now : ℕ) (shutdown : Bool) (p : Phase) (s : RpcEndpoint)
      → Working (p, s)
      → Working (worker_step lib fl now shutdown p s)
  unfolding worker_step state
  worker_step-Working now shutdown polling s w = ground (arith, w.leads, w.sound)
  worker_step-Working now shutdown checking s w = ground (arith, w.leads, w.sound)
  worker_step-Working now shutdown sleeping s w = record {
    on_course = tt;
    leads = w.leads;
    sound = w.sound;
  }
  worker_step-Working now shutdown reaping s w = record {
    on_course = tt;
    leads = w.leads;
    sound = queue-Sound s w.sound (reap_expired-Inv s.eval_queue w.sound.queue now visibility);
  }
  worker_step-Working now shutdown taking s w = record {
    on_course = taken-OnCourse (dequeue now s.eval_queue).1;
    leads = w.leads;
    sound = queue-Sound s w.sound (dequeue-Inv s.eval_queue w.sound.queue now);
  }
  worker_step-Working now shutdown (holding ev) s w = record {
    on_course = plan-Valid lib fl ev (state s.raft) w.sound.valid;
    leads = w.leads;
    sound = w.sound;
  }
  worker_step-Working now shutdown (planned ev plan) s w =
      let c = commit_allocs-Committed plan.allocs s w.on_course w.leads w.sound in
      record { on_course = settled-OnCourse ev plan _ c.returned; leads = c.leads; sound = c.sound }
  worker_step-Working now shutdown (committed ev plan) s w = ground (arith, w.leads, w.sound)
  worker_step-Working now shutdown (parking ev) s w = record {
    on_course = tt;
    leads = w.leads;
    sound = queue-Sound s w.sound (block-Inv s.eval_queue w.sound.queue ev);
  }
  worker_step-Working now shutdown (acking ev) s w = record {
    on_course = tt;
    leads = w.leads;
    sound = queue-Sound s w.sound (ack-Inv s.eval_queue w.sound.queue ev.id);
  }
  worker_step-Working now shutdown (refused ev) s w = record {
    on_course = tt;
    leads = w.leads;
    sound = queue-Sound s w.sound (nack-Inv s.eval_queue w.sound.queue ev.id);
  }
  worker_step-Working now shutdown finished s w = w

  -- Each step makes at most one call of the queue.
  pub worker_step-Reached :
      (now : ℕ) (shutdown : Bool) (p : Phase) (s : RpcEndpoint)
      → Reached s.eval_queue.inner
      → Reached (worker_step lib fl now shutdown p s).1.eval_queue.inner
  unfolding worker_step
  worker_step-Reached now true polling s h = h
  worker_step-Reached now false polling s h = h
  worker_step-Reached now shutdown checking s h = elim (Bool-cases (is_leader s.raft)) [
    | inl e ↦ rw (e, worker_step) h
    | inr e ↦ rw (e, worker_step) h
  ]
  worker_step-Reached now shutdown sleeping s h = h
  worker_step-Reached now shutdown reaping s h =
      Moves-Reached s.eval_queue _ (reap_expired-Moves s.eval_queue now visibility) h
  worker_step-Reached now shutdown taking s h =
      Moves-Reached s.eval_queue _ (dequeue-Moves s.eval_queue now) h
  worker_step-Reached now shutdown (holding ev) s h = h
  worker_step-Reached now shutdown (planned ev plan) s h = h
  worker_step-Reached now shutdown (committed ev plan) s h =
      elim (Bool-cases (is_none plan.allocs && ltb_ℤ (pos 0) (desired_count ev (state s.raft)))) [
        | inl e ↦ rw (e, worker_step) h
        | inr e ↦ rw (e, worker_step) h
      ]
  worker_step-Reached now shutdown (parking ev) s h =
      Moves-Reached s.eval_queue _ (block-Moves s.eval_queue ev) h
  worker_step-Reached now shutdown (acking ev) s h =
      Moves-Reached s.eval_queue _ (ack-Moves s.eval_queue ev.id) h
  worker_step-Reached now shutdown (refused ev) s h =
      Moves-Reached s.eval_queue _ (nack-Moves s.eval_queue ev.id) h
  worker_step-Reached now shutdown finished s h = h

-- ===== src/TaskRunner/Restarts.antt =====
-- taskrunner.rs: how often a task is started again.
use nomad_rs.Base.{ℕ, ◌+◌, ◌≤◌, ◌<◌, Bool, true, false, ◌≡◌, refl, ◌∙◌, List, [], ◌∷◌, arith}
use nomad_rs.Driver.{Json, Os}
use nomad_rs.TaskRunner.{TaskRunner, u32_mod, start, poll, stop, handle_exit}

-- Any call on a runner.
pub data Call : Type 0 where
  starts polls stops : Call
  exits : Bool → Call

abbrev one_if : Bool → ℕ
one_if true = 1
one_if false = 0

module _ (json : Json) (os : Os) where
  -- The runner after the call, and the restarts that it asked for.
  pub step : Call → TaskRunner × os.W → (TaskRunner × os.W) × ℕ
  step starts s = ((start json os s).0, 0)
  step polls s = ((poll json os s).0, 0)
  step stops s = ((stop json os s).0, 0)
  step (exits success) (t, w) = let r = handle_exit success t in ((r.0, w), one_if r.1)

  pub steps : List Call → TaskRunner × os.W → (TaskRunner × os.W) × ℕ
  steps [] s = (s, 0)
  steps (c ∷ cs) s = let r = step c s in let rest = steps cs r.0 in (rest.0, r.1 + rest.1)

  -- The policy stays, and the count with the restarts asked for.
  record Counts (t : TaskRunner) (r : (TaskRunner × os.W) × ℕ) : Type 0 where
    attempts : r.0.0.restart_policy.attempts ≡ t.restart_policy.attempts
    counted : r.0.0.restart_count ≡ t.restart_count + r.1
    capped : r.0.0.restart_count ≤ t.restart_policy.attempts

  step-Counts :
      (c : Call) (t : TaskRunner) (w : os.W)
      → t.restart_policy.attempts < u32_mod
      → t.restart_count ≤ t.restart_policy.attempts
      → Counts t (step c (t, w))
  unfolding step start poll stop handle_exit
  step-Counts starts t w s l = record {
    attempts = ground arith;
    counted = ground arith;
    capped = ground arith;
  }
  step-Counts polls t w s l = record {
    attempts = ground arith;
    counted = ground arith;
    capped = ground arith;
  }
  step-Counts stops t w s l = record {
    attempts = ground arith;
    counted = ground arith;
    capped = ground arith;
  }
  step-Counts (exits true) t w s l = record { attempts = refl; counted = omega arith; capped = l }
  step-Counts (exits false) t w s l = record {
    attempts = ground arith;
    counted = ground arith;
    capped = ground arith;
  }

  steps-Counts :
      (cs : List Call) (t : TaskRunner) (w : os.W)
      → t.restart_policy.attempts < u32_mod
      → t.restart_count ≤ t.restart_policy.attempts
      → Counts t (steps cs (t, w))
  unfolding steps
  steps-Counts [] t w s l = record { attempts = refl; counted = omega arith; capped = l }
  steps-Counts (c ∷ cs) t w s l =
      let h = step-Counts c t w s l in
      let r = step c (t, w) in
      let k =
        steps-Counts cs r.0.0 r.0.1 (omega (arith, s, h.attempts))
          (omega (arith, h.capped, h.attempts)) in
      record {
        attempts = k.attempts ∙ h.attempts;
        counted = omega (arith, k.counted, h.counted);
        capped = omega (arith, k.capped, h.attempts);
      }

  -- Over any calls of `start`, `poll`, `stop` and `handle_exit`, whatever the operating system
  -- does, the runner counts exactly the restarts that `handle_exit` asked for, and they never
  -- exceed the attempts that the policy allows: for a policy whose attempts fit `u32` and a runner
  -- whose count is within them at the start.
  pub restarts-bounded :
      (cs : List Call) (t : TaskRunner) (w : os.W)
      → t.restart_policy.attempts < u32_mod
      → t.restart_count ≤ t.restart_policy.attempts
      → ((steps cs (t, w)).0.0.restart_count ≡ t.restart_count + (steps cs (t, w)).1)
        × (t.restart_count + (steps cs (t, w)).1 ≤ t.restart_policy.attempts)
  restarts-bounded cs t w s l =
      let k = steps-Counts cs t w s l in (k.counted, omega (arith, k.counted, k.capped))

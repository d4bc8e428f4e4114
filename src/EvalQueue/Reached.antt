-- ===== src/EvalQueue/Reached.antt =====
-- eval_queue.rs: the queues that calls on a new one lead to.
use nomad_rs.Base.{◌*◌, ◌≤◌, String, ◌≡◌, refl, sym, ap, ◌∙◌, List, [], ◌∷◌, ◌++◌}
use nomad_rs.EvalQueue.{EvalQueue, Inner, new, max_dequeue}
use nomad_rs.EvalQueue.Delivery.{Call, step, steps}
use nomad_rs.EvalQueue.HandedOut.{handed_out, added, handed_out-bounded}
use nomad_rs.EvalQueue.Methods.{Moves, stays, calls}

-- Some calls on a new queue lead to the state, and no id was handed out by them more than
-- `MAX_DEQUEUE` times for each time that they added it.
pub record Reached (i : Inner) : Type 0 where
  pub history : List Call
  pub leads_to : steps history new.inner ≡ i
  pub bounded : (id : String) → handed_out id history new.inner ≤ max_dequeue * added id history

steps-append :
    (cs : List Call) (c : Call) (i : Inner) → steps (cs ++ c ∷ []) i ≡ step c (steps cs i)
unfolding steps
steps-append [] c i = refl
steps-append (d ∷ cs) c i = steps-append cs c (step d i)

pub new-Reached : Reached new.inner
unfolding steps
new-Reached = record { history = []; leads_to = refl; bounded = λ id. handed_out-bounded id [] }

pub Moves-Reached : (q r : EvalQueue) → Moves q r → Reached q.inner → Reached r.inner
Moves-Reached q r (stays e) h = record {
  history = h.history;
  leads_to = h.leads_to ∙ sym e;
  bounded = h.bounded;
}
Moves-Reached q r (calls c e) h = record {
  history = h.history ++ c ∷ [];
  leads_to = steps-append h.history c new.inner ∙ (ap (step c) h.leads_to ∙ sym e);
  bounded = λ id. handed_out-bounded id (h.history ++ c ∷ []);
}

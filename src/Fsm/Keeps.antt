-- ===== src/Fsm/Keeps.antt =====
-- fsm.rs: what `apply` keeps, and when it refuses.
use nomad_rs.Base.{◌≡◌, refl, none, arith, ◌⊎◌, inl, inr, ◌↔◌, ◌≢◌}
use nomad_rs.Base.HashMap.{get}
use nomad_rs.Error.{Error, Result, ok, err}
use nomad_rs.Jobspec.{validate_job}
use nomad_rs.Alloc.{validate_alloc}
use nomad_rs.Eval.{validate_eval}
use nomad_rs.Node.{validate_node}
use nomad_rs.State
use nomad_rs.State.{StateStore}
use nomad_rs.State.Valid.{
  IsValid, upsert_job-IsValid, delete_job-IsValid, upsert_node-IsValid, upsert_alloc-IsValid,
  upsert_eval-IsValid,
}
use nomad_rs.Fsm.{
  Fsm, Command, apply, upsert_job, deregister_job, upsert_node, upsert_alloc, upsert_eval,
}

-- Every command, applied with success or rejected, keeps the store's invariant.
pub apply-IsValid : (c : Command) (f : Fsm) → IsValid f.state → IsValid (apply c f).0.state
unfolding apply
apply-IsValid (upsert_job j) f h = upsert_job-IsValid h j
apply-IsValid (deregister_job name) f h = delete_job-IsValid h name
apply-IsValid (upsert_node n) f h = upsert_node-IsValid h n
apply-IsValid (upsert_alloc a) f h = upsert_alloc-IsValid h a
apply-IsValid (upsert_eval e) f h = upsert_eval-IsValid h e

-- A rejected command leaves the state machine as it was.
pub apply_rejected : (c : Command) (f : Fsm) {x : Error} → (apply c f).1 ≡ err x → (apply c f).0 ≡ f
unfolding apply State.upsert_job State.delete_job State.upsert_node State.upsert_alloc
    State.upsert_eval
apply_rejected (upsert_job j) f h = ground arith
apply_rejected (deregister_job name) f h = ground arith
apply_rejected (upsert_node n) f h = ground arith
apply_rejected (upsert_alloc a) f h = ground arith
apply_rejected (upsert_eval e) f h = ground arith

-- What a command needs: a valid item, or a job to remove.
abbrev pub Accepts : Command → Fsm → Type 0
Accepts (upsert_job j) f = validate_job j ≡ ok tt
Accepts (deregister_job name) f = get name f.state.jobs ≢ none
Accepts (upsert_node n) f = validate_node n ≡ ok tt
Accepts (upsert_alloc a) f = validate_alloc a ≡ ok tt
Accepts (upsert_eval e) f = validate_eval e ≡ ok tt

-- A command is applied with success exactly when its item is valid, or its job is there.
pub apply_ok_iff : (c : Command) (f : Fsm) → ((apply c f).1 ≡ ok tt) ↔ Accepts c f
unfolding apply State.upsert_job State.delete_job State.upsert_node State.upsert_alloc
    State.upsert_eval
apply_ok_iff (upsert_job j) f = (λ h. ground arith, λ h. ground arith)
apply_ok_iff (deregister_job name) f = (λ h. ground arith, λ h. ground arith)
apply_ok_iff (upsert_node n) f = (λ h. ground arith, λ h. ground arith)
apply_ok_iff (upsert_alloc a) f = (λ h. ground arith, λ h. ground arith)
apply_ok_iff (upsert_eval e) f = (λ h. ground arith, λ h. ground arith)

-- A command is either accepted, or refused with the state machine unchanged.
pub apply-cases :
    (c : Command) (f : Fsm)
    → ((apply c f).1 ≡ ok tt) ⊎ ((x : Error) × ((apply c f).1 ≡ err x) × ((apply c f).0 ≡ f))
apply-cases c f = go ((apply c f).1) refl
  where
    go :
        (r : Result (Unit {0}))
        → (apply c f).1 ≡ r
        → ((apply c f).1 ≡ ok tt) ⊎ ((x : Error) × ((apply c f).1 ≡ err x) × ((apply c f).0 ≡ f))
    go (ok _) e = inl e
    go (err x) e = inr (x, e, apply_rejected c f e)

-- ===== src/AllocRunner/Status.antt =====
-- allocrunner.rs: the status that the tasks' states add up to.
use nomad_rs.Base.{
  ◌≡◌, ◌≢◌, ◌↔◌, refl, true, false, List, [], ◌∷◌, map, All, Any, arith, inl, inr, Bool-cases,
}
use nomad_rs.Alloc
use nomad_rs.Alloc.{ClientStatus}
use nomad_rs.Driver.{TaskState, pending, running, exited, failed, unknown}
use nomad_rs.TaskRunner.{TaskRunner}
use nomad_rs.AllocRunner.{is_final, any_failed, all_exited, rolled_up}

abbrev pub states : List TaskRunner → List TaskState
states ts = map (λ t. t.state) ts

-- What the status says of the tasks' states.
pub record Reports (s : ClientStatus) (ss : List TaskState) : Type 0 where
  pub fails : (s ≡ Alloc.failed) ↔ Any (λ x. x ≡ failed) ss
  pub completes : (s ≡ Alloc.complete) ↔ ((ss ≢ []) × All (λ x. x ≡ exited) ss)

any_failed_sound : (ss : List TaskState) → any_failed ss ≡ true → Any (λ x. x ≡ failed) ss
unfolding any_failed
any_failed_sound [] h = cc
any_failed_sound (failed ∷ ss) h = inl refl
any_failed_sound (pending ∷ ss) h = inr (any_failed_sound ss h)
any_failed_sound (running ∷ ss) h = inr (any_failed_sound ss h)
any_failed_sound (exited ∷ ss) h = inr (any_failed_sound ss h)
any_failed_sound (unknown ∷ ss) h = inr (any_failed_sound ss h)

any_failed_complete : (ss : List TaskState) → Any (λ x. x ≡ failed) ss → any_failed ss ≡ true
unfolding any_failed
any_failed_complete [] h = elim h [ ]
any_failed_complete (s ∷ ss) (inl e) = rw e refl
any_failed_complete (s ∷ ss) (inr h) = rw (any_failed_complete ss h) (ground arith)

all_exited_sound : (ss : List TaskState) → all_exited ss ≡ true → All (λ x. x ≡ exited) ss
unfolding all_exited
all_exited_sound [] h = tt
all_exited_sound (exited ∷ ss) h = (refl, all_exited_sound ss h)
all_exited_sound (pending ∷ ss) h = cc
all_exited_sound (running ∷ ss) h = cc
all_exited_sound (failed ∷ ss) h = cc
all_exited_sound (unknown ∷ ss) h = cc

all_exited_complete : (ss : List TaskState) → All (λ x. x ≡ exited) ss → all_exited ss ≡ true
unfolding all_exited
all_exited_complete [] h = refl
all_exited_complete (s ∷ ss) h = rw (h.0) (all_exited_complete ss h.1)

exited-not_failed : (ss : List TaskState) → All (λ x. x ≡ exited) ss → any_failed ss ≡ false
unfolding any_failed
exited-not_failed [] h = refl
exited-not_failed (s ∷ ss) h = rw (h.0) (exited-not_failed ss h.1)

-- One of the states is failed: the status is.
failed-Reports : (ss : List TaskState) → any_failed ss ≡ true → Reports Alloc.failed ss
failed-Reports ss f = record {
  fails = ((λ e. any_failed_sound ss f), (λ h. refl));
  completes = (
    (λ e. absurd (ground (arith, e))),
    (λ (h : (ss ≢ []) × All (λ x. x ≡ exited) ss).
        absurd (ground (arith, f, exited-not_failed ss h.1))),
  );
}

complete-Reports :
    (s : TaskState) (ss : List TaskState)
    → any_failed (s ∷ ss) ≡ false
    → all_exited (s ∷ ss) ≡ true
    → Reports Alloc.complete (s ∷ ss)
complete-Reports s ss f e = record {
  fails = (
    (λ q. absurd (ground (arith, q))),
    (λ h. absurd (ground (arith, f, any_failed_complete (s ∷ ss) h))),
  );
  completes = ((λ q. ((λ n. cc), all_exited_sound (s ∷ ss) e)), (λ h. refl));
}

not-final : (s : ClientStatus) → is_final s ≡ false → (s ≢ Alloc.failed) × (s ≢ Alloc.complete)
not-final Alloc.pending h = ((λ e. cc), (λ e. cc))
not-final Alloc.running h = ((λ e. cc), (λ e. cc))
not-final Alloc.lost h = ((λ e. cc), (λ e. cc))
not-final Alloc.complete h = absurd (ground (arith, h))
not-final Alloc.failed h = absurd (ground (arith, h))

-- Neither: the status stays open.
open-Reports :
    (ss : List TaskState) (old : ClientStatus)
    → is_final old ≡ false
    → any_failed ss ≡ false
    → ¬ ((ss ≢ []) × (all_exited ss ≡ true))
    → Reports old ss
open-Reports ss old o f n =
    let (no_fail, no_end) = not-final old o in
    record {
      fails =
          ((λ e. absurd (no_fail e)), (λ h. absurd (ground (arith, f, any_failed_complete ss h))));
      completes = (
        (λ e. absurd (no_end e)),
        (λ (h : (ss ≢ []) × All (λ x. x ≡ exited) ss).
            absurd (n (h.0, all_exited_complete ss h.1))),
      );
    }

-- The status that is rolled up from one that is not final.
pub rolled_up-Reports :
    (ss : List TaskState) (old : ClientStatus)
    → is_final old ≡ false
    → Reports (rolled_up ss old) ss
unfolding rolled_up
rolled_up-Reports [] old o =
    open-Reports [] old o (unfold any_failed in refl) (λ h. absurd (h.0 refl))
rolled_up-Reports (s ∷ ss) old o = elim (Bool-cases (any_failed (s ∷ ss))) [
  | inl f ↦ rw f (failed-Reports (s ∷ ss) f)
  | inr f ↦ elim (Bool-cases (all_exited (s ∷ ss))) [
    | inl e ↦ rw (f, rolled_up) (rw e (complete-Reports s ss f e))
    | inr e ↦
        rw (f, rolled_up)
          (rw e (
            open-Reports (s ∷ ss) old o f
              (λ (h : ((s ∷ ss) ≢ []) × (all_exited (s ∷ ss) ≡ true)). ground (arith, e, h.1))))
  ]
]

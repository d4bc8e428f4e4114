-- ===== src/Fsm/Machine.antt =====
-- fsm.rs: the state machine with the iteration order of its tables forgotten.
use mathlib.Core.Quot
use mathlib.Core.Quot.{Quot, Quot-set}
use nomad_rs.Base.{◌≡◌, ◌≢◌, sym, ap, ◌∙◌}
use nomad_rs.State.Valid.{IsValid}
use nomad_rs.Fsm.Keeps.{apply-IsValid}
use nomad_rs.Fsm.Refines.{view}
use nomad_rs.Fsm.{Fsm, Command, apply}
use nomad_rs.Fsm.Order.{entry, outcome, step, apply-outcome, view-step, outcome-step, step_comm}

-- A state machine with a valid store, and two with the same entries.
abbrev pub Carrier : Type 0
Carrier = (f : Fsm) × IsValid f.state

abbrev pub SameEntries : Carrier → Carrier → Type 0
SameEntries a b = view a.0 ≡ view b.0

-- The iteration order of the tables is forgotten.
abbrev pub Machine : Type 0
Machine = Quot SameEntries

applied : Command → Carrier → Carrier
applied c a = ((apply c a.0).0, apply-IsValid c a.0 a.1)

applied-SameEntries :
    (c : Command) (a b : Carrier) → SameEntries a b → SameEntries (applied c a) (applied c b)
unfolding applied
applied-SameEntries c a b h = view-step c a.0 a.1 ∙ ap (step c) h ∙ sym (view-step c b.0 b.1)

-- `apply` does not depend on that order.
pub commit : Command → Machine → Machine
unfolding applied
commit c =
    Quot.lift Quot-set (λ a. Quot.mk (applied c a))
      (λ a b h. Quot.sound (applied-SameEntries c a b h))

applied_comm :
    (c d : Command) (a : Carrier)
    → entry c ≢ entry d
    → SameEntries (applied c (applied d a)) (applied d (applied c a))
unfolding applied
applied_comm c d a h =
    let ca = applied c a in
    let da = applied d a in
    view-step c da.0 da.1
    ∙ ap (step c) (view-step d a.0 a.1)
    ∙ step_comm c d (view a.0) h
    ∙ ap (step d) (sym (view-step c a.0 a.1))
    ∙ sym (view-step d ca.0 ca.1)

apply-result :
    (c d : Command) (f : Fsm)
    → IsValid f.state
    → entry c ≢ entry d
    → (apply d (apply c f).0).1 ≡ (apply d f).1
apply-result c d f v h =
    apply-outcome d (apply c f).0
    ∙ ap (outcome d) (view-step c f v)
    ∙ outcome-step c d (view f) h
    ∙ sym (apply-outcome d f)

-- On states that are equal when they have the same entries, whatever the iteration order of the
-- tables: two commands about different entries leave the same state in either order, and each
-- returns what it returns without the other before it.
pub commit_comm :
    (c d : Command) (f : Fsm) (v : IsValid f.state)
    → entry c ≢ entry d
    → (Path Machine (commit c (commit d (Quot.mk (f, v)))) (commit d (commit c (Quot.mk (f, v)))))
      × ((apply c (apply d f).0).1 ≡ (apply c f).1)
      × ((apply d (apply c f).0).1 ≡ (apply d f).1)
unfolding commit
commit_comm c d f v h = (
  Quot.sound (applied_comm c d (f, v) h),
  apply-result d c f v (λ e. h (sym e)),
  apply-result c d f v h,
)

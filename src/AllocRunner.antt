-- ===== src/AllocRunner.antt =====
-- allocrunner.rs: the tasks of one allocation. The operating system's state is passed along.
pub mod Rollback
pub mod Status
pub mod Supervised
use nomad_rs.Base.{
  ℕ, Bool, true, false, not, ◌&&◌, ◌||◌, Option, none, some, List, [], ◌∷◌, map, if◌then◌else◌,
}
use nomad_rs.Error.{Error, Result, ok, err}
use nomad_rs.Jobspec.{Task}
use nomad_rs.Alloc
use nomad_rs.Alloc.{Allocation, ClientStatus}
use nomad_rs.Driver.{Json, Os, TaskState, exited, failed}
use nomad_rs.TaskRunner
use nomad_rs.TaskRunner.{TaskRunner, start, poll, stop}

pub record AllocRunner : Type 0 where
  pub alloc : Allocation
  pub runners : List TaskRunner

unfoldable pub new : Allocation → List Task → AllocRunner
unfolding TaskRunner.new
new alloc tasks = record { alloc = alloc; runners = map (λ t. TaskRunner.new t) tasks }

abbrev pub with_status : ClientStatus → Allocation → Allocation
with_status s a = record a { client_status = s }

-- `Complete | Failed`.
abbrev pub is_final : ClientStatus → Bool
is_final s = elim s [ Alloc.complete ↦ true | Alloc.failed ↦ true | _ ↦ false ]

abbrev is_failed : TaskState → Bool
is_failed s = elim s [ failed ↦ true | _ ↦ false ]

abbrev is_exited : TaskState → Bool
is_exited s = elim s [ exited ↦ true | _ ↦ false ]

-- `states.contains(&Failed)`, and `iter().all(|s| *s == Exited)`.
unfoldable pub any_failed : List TaskState → Bool
any_failed [] = false
any_failed (s ∷ ss) = is_failed s || any_failed ss

unfoldable pub all_exited : List TaskState → Bool
all_exited [] = true
all_exited (s ∷ ss) = is_exited s && all_exited ss

abbrev is_none {ℓ} : {A : Type ℓ} → List A → Bool
is_none [] = true
is_none (x ∷ xs) = false

-- The status that the states add up to.
unfoldable pub rolled_up : List TaskState → ClientStatus → ClientStatus
unfolding any_failed all_exited
rolled_up states old =
    if any_failed states
    then Alloc.failed
    else (if not (is_none states) && all_exited states then Alloc.complete else old)

module _ (json : Json) (os : Os) where
  -- The runners from one on, and the processes.
  abbrev pub Runners : Type 0
  Runners = List TaskRunner × os.W

  -- `iter_mut().map(poll).collect()`: the first error ends it.
  unfoldable pub poll_all : Runners → Runners × Result (List TaskState)
  poll_all ([], w) = (([], w), ok [])
  poll_all (t ∷ ts, w) =
      let p = poll json os (t, w) in
      let rest = poll_all (ts, p.0.1) in
      elim p.1 [
        | err e ↦ ((p.0.0 ∷ ts, p.0.1), err e)
        | ok s ↦ ((p.0.0 ∷ rest.0.0, rest.0.1), elim rest.1 [ err e ↦ err e | ok ss ↦ ok (s ∷ ss) ])
      ]

  unfoldable pub refresh_status : AllocRunner × os.W → (AllocRunner × os.W) × Result ClientStatus
  unfolding rolled_up
  refresh_status (a, w) =
      let p = poll_all (a.runners, w) in
      let polled : AllocRunner = record a { runners = p.0.0 } in
      if is_final a.alloc.client_status then ((a, w), ok a.alloc.client_status) else elim p.1 [
        | err e ↦ ((polled, p.0.1), err e)
        | ok states ↦
            let status = rolled_up states a.alloc.client_status in
            ((record polled { alloc = with_status status a.alloc }, p.0.1), ok status)
      ]

  -- The loop of `run`, with the roll-back of what it started, the last one first.
  unfoldable pub start_all : Runners → Runners × Result (Unit {0})
  start_all ([], w) = (([], w), ok tt)
  start_all (t ∷ ts, w) =
      let p = start json os (t, w) in
      let rest = start_all (ts, p.0.1) in
      let back = stop json os (p.0.0, rest.0.1) in
      elim p.1 [
        | err e ↦ ((p.0.0 ∷ ts, p.0.1), err e)
        | ok _ ↦ elim rest.1 [
          | ok _ ↦ ((p.0.0 ∷ rest.0.0, rest.0.1), ok tt)
          | err e ↦ ((back.0.0 ∷ rest.0.0, back.0.1), err e)
        ]
      ]

  unfoldable pub run : AllocRunner × os.W → (AllocRunner × os.W) × Result (Unit {0})
  run (a, w) =
      let r = start_all (a.runners, w) in
      let status : ClientStatus = elim r.1 [ ok _ ↦ Alloc.running | err e ↦ Alloc.failed ] in
      ((record { alloc = with_status status a.alloc; runners = r.0.0 }, r.0.1), r.1)

  abbrev first_error : Result (Unit {0}) → Result (Unit {0}) → Result (Unit {0})
  first_error (err e) later = err e
  first_error (ok _) later = later

  -- The loop of `destroy`, with the first error.
  unfoldable pub stop_all : Runners → Runners × Result (Unit {0})
  stop_all ([], w) = (([], w), ok tt)
  stop_all (t ∷ ts, w) =
      let p = stop json os (t, w) in
      let rest = stop_all (ts, p.0.1) in ((p.0.0 ∷ rest.0.0, rest.0.1), first_error p.1 rest.1)

  unfoldable pub destroy : AllocRunner × os.W → (AllocRunner × os.W) × Result (Unit {0})
  destroy (a, w) =
      let r = stop_all (a.runners, w) in
      ((record { alloc = with_status Alloc.complete a.alloc; runners = r.0.0 }, r.0.1), r.1)

-- ===== src/AllocRunner/Supervised.antt =====
-- allocrunner.rs: what `refresh_status` reports, over any number of refreshes.
use nomad_rs.Base.{
  ◌≡◌, refl, sym, ap, subst, ◌∙◌, true, false, List, [], ◌∷◌, arith, inl, inr, Bool-cases,
  Option-cases,
}
use nomad_rs.Error.{Error, Result, ok, err}
use nomad_rs.Alloc.{ClientStatus}
use nomad_rs.Driver.{Json, Os, ExecDriver, TaskState, exec_inspect}
use nomad_rs.TaskRunner.{TaskRunner, poll, is_terminal, inspected}
use nomad_rs.AllocRunner.{AllocRunner, is_final, rolled_up, Runners, poll_all, refresh_status}
use nomad_rs.AllocRunner.Status.{states, Reports, rolled_up-Reports}

module _ (json : Json) (os : Os) where
  inspected-state :
      (t : TaskRunner) (r : (ExecDriver × os.W) × Result TaskState) (s : TaskState)
      → (inspected json os t r).1 ≡ ok s
      → (inspected json os t r).0.0.state ≡ s
  inspected-state t (d, err e) s h = absurd (ground (arith, h))
  inspected-state t (d, ok x) s h = ground (arith, h)

  -- A poll that returns a state records it.
  poll-state :
      (t : TaskRunner) (w : os.W) (s : TaskState)
      → (poll json os (t, w)).1 ≡ ok s
      → (poll json os (t, w)).0.0.state ≡ s
  unfolding poll
  poll-state t w s = elim (Bool-cases (is_terminal t.state)) [
    | inl e ↦ rw e (λ h. ground (arith, h))
    | inr e ↦ elim (Option-cases t.handle) [
      | inl n ↦ rw e (rw (n, poll) (λ h. ground (arith, h)))
      | inr (x, q) ↦
          rw e (rw (q, poll) (inspected-state t (exec_inspect json os x (t.driver, w)) s))
    ]
  ]

  poll_all-states :
      (ts : List TaskRunner) (w : os.W) (ss : List TaskState)
      → (poll_all json os (ts, w)).1 ≡ ok ss
      → states (poll_all json os (ts, w)).0.0 ≡ ss
  unfolding poll_all
  poll_all-states [] w ss h = ground (arith, h)
  poll_all-states (t ∷ ts) w ss h =
      by_first (poll json os (t, w)).1 refl h (poll_all-states ts (poll json os (t, w)).0.1)
    where
      p : (TaskRunner × os.W) × Result TaskState
      p = poll json os (t, w)

      rest : Runners json os × Result (List TaskState)
      rest = poll_all json os (ts, p.0.1)

      polled : Result TaskState → Runners json os × Result (List TaskState)
      polled r = elim r [
        | err e ↦ ((p.0.0 ∷ ts, p.0.1), err e)
        | ok s ↦ ((p.0.0 ∷ rest.0.0, rest.0.1), elim rest.1 [ err e ↦ err e | ok ss ↦ ok (s ∷ ss) ])
      ]

      by_rest :
          (s : TaskState) (r : Result (List TaskState))
          → p.0.0.state ≡ s
          → rest.1 ≡ r
          → (elim r as (λ _. Result (List TaskState)) [ err e ↦ err e | ok ss ↦ ok (s ∷ ss) ])
            ≡ ok ss
          → ((xs : List TaskState) → rest.1 ≡ ok xs → states rest.0.0 ≡ xs)
          → states (p.0.0 ∷ rest.0.0) ≡ ss
      by_rest s (err e) q k h f = absurd (ground (arith, h))
      by_rest s (ok xs) q k h f = (λ i. q i ∷ f xs k i) ∙ ground (arith, h)

      by_first :
          (r : Result TaskState)
          → p.1 ≡ r
          → (polled r).1 ≡ ok ss
          → ((xs : List TaskState) → rest.1 ≡ ok xs → states rest.0.0 ≡ xs)
          → states (polled r).0.0 ≡ ss
      by_first (err e) q h f = absurd (ground (arith, h))
      by_first (ok s) q h f = by_rest s rest.1 (poll-state t w s q) refl h f

  -- The status is open, or it is final and reports the tasks.
  pub data Settled (a : AllocRunner) : Type 0 where
    not_final : is_final a.alloc.client_status ≡ false → Settled a
    final :
        is_final a.alloc.client_status ≡ true
        → Reports a.alloc.client_status (states a.runners)
        → Settled a

  -- One refresh: a final status is kept, with the tasks; the error of a poll leaves it open;
  -- else the status that is returned is recorded. A status that is returned reports the tasks.
  pub data Refreshes (a : AllocRunner) : (AllocRunner × os.W) × Result ClientStatus → Type 0 where
    unpolled :
        (b : AllocRunner) (w : os.W) (e : Error)
        → is_final a.alloc.client_status ≡ false
        → b.alloc ≡ a.alloc
        → Refreshes a ((b, w), err e)
    kept :
        (w : os.W)
        → is_final a.alloc.client_status ≡ true
        → Reports a.alloc.client_status (states a.runners)
        → Refreshes a ((a, w), ok a.alloc.client_status)
    reported :
        (b : AllocRunner) (w : os.W)
        → is_final a.alloc.client_status ≡ false
        → Reports b.alloc.client_status (states b.runners)
        → Refreshes a ((b, w), ok b.alloc.client_status)

  refresh_status-Refreshes :
      (a : AllocRunner) (w : os.W) → Settled a → Refreshes a (refresh_status json os (a, w))
  unfolding refresh_status
  refresh_status-Refreshes a w (final f r) = rw f (kept w f r)
  refresh_status-Refreshes a w (not_final f) =
      rw (f, refresh_status) (by_poll (poll_all json os (a.runners, w)).1 refl)
    where
      p : Runners json os × Result (List TaskState)
      p = poll_all json os (a.runners, w)

      by_poll :
          (r : Result (List TaskState))
          → p.1 ≡ r
          → Refreshes a (elim r as (λ _. (AllocRunner × os.W) × Result ClientStatus) [
            | err e ↦ ((record a { runners = p.0.0 }, p.0.1), err e)
            | ok ss ↦
                let s = rolled_up ss a.alloc.client_status in
                (
                  (record { alloc = record a.alloc { client_status = s }; runners = p.0.0 }, p.0.1),
                  ok s,
                )
          ])
      by_poll (err e) q = unpolled (record a { runners = p.0.0 }) p.0.1 e f refl
      by_poll (ok ss) q = reported _ p.0.1 f (
          subst (Reports (rolled_up ss a.alloc.client_status))
            (sym (poll_all-states a.runners w ss q)) (rolled_up-Reports ss a.alloc.client_status f))

  Refreshes-Settled :
      (a : AllocRunner) (r : (AllocRunner × os.W) × Result ClientStatus)
      → Refreshes a r
      → Settled r.0.0
  Refreshes-Settled a _ (unpolled b w e f same) =
      not_final (ap (λ x. is_final x.client_status) same ∙ f)
  Refreshes-Settled a _ (kept w f r) = final f r
  Refreshes-Settled a _ (reported b w f r) = elim (Bool-cases (is_final b.alloc.client_status)) [
    | inl t ↦ final t r
    | inr n ↦ not_final n
  ]

  -- A supervisor's refreshes, with what the processes do before each of them.
  unfoldable pub supervised : List (os.W → os.W) → AllocRunner × os.W → AllocRunner × os.W
  supervised [] s = s
  supervised (f ∷ fs) (a, w) = supervised fs (refresh_status json os (a, f w)).0

  supervised-Settled :
      (fs : List (os.W → os.W)) (a : AllocRunner) (w : os.W)
      → Settled a
      → Settled (supervised fs (a, w)).0
  unfolding supervised
  supervised-Settled [] a w h = h
  supervised-Settled (f ∷ fs) a w h =
      supervised-Settled fs _ _ (Refreshes-Settled a _ (refresh_status-Refreshes a (f w) h))

  -- From a status that is not final, after any number of refreshes between which the processes do
  -- anything, the next refresh does one of three things: it keeps a status that is final, with the
  -- tasks as they are; it returns the error of a poll and leaves the allocation as it is; or it records the
  -- status that it returns. A status that is returned is Failed exactly when some task is recorded
  -- as failed, and Complete exactly when there are tasks and all are recorded as exited.
  pub supervised-Refreshes :
      (fs : List (os.W → os.W)) (a : AllocRunner) (w : os.W)
      → is_final a.alloc.client_status ≡ false
      → let s = supervised fs (a, w) in Refreshes s.0 (refresh_status json os s)
  supervised-Refreshes fs a w h =
      let s = supervised fs (a, w) in
      refresh_status-Refreshes s.0 s.1 (supervised-Settled fs a w (not_final h))

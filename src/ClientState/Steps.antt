-- ===== src/ClientState/Steps.antt =====
-- client_state.rs: the methods on the tables, against what a client knows.
use nomad_rs.Base.{
  ℕ, ◌≡◌, ◌≢◌, refl, sym, ap, subst, ◌∙◌, String, none, arith, Option-cases, str_eq_refl, ◌⊎◌, inl,
  inr,
}
use nomad_rs.Error.{
  Error, io, serialize, database, constraint, other, config, runtime, validation, Result, ok, err,
  and_then,
}
use nomad_rs.Alloc.{Allocation}
use nomad_rs.Driver.{TaskState}
use nomad_rs.ClientState.{
  AllocRow, Statement, put_alloc, put_task, delete_tasks, delete_row, Sqlite, row_of, upsert_alloc,
  set_task_state, delete_alloc,
}
use nomad_rs.ClientState.Tables.{Content, applied, Refused, orphan, orphans, Tables}
use nomad_rs.ClientState.Known.{
  Known, Call, upserts, sets, deletes, without_tasks, updated, Allowed, unconstrained,
  unknown_alloc, Effect, succeeds, fails, halfway, task_row, Represents, put_alloc-Represents,
  put_task-Represents, delete_tasks-Represents, delete_row-Represents,
}

constraint-or-not : (x : Error) → (x ≡ database constraint) ⊎ (x ≢ database constraint)
constraint-or-not io = inr (λ e. cc)
constraint-or-not serialize = inr (λ e. cc)
constraint-or-not (database constraint) = inl refl
constraint-or-not (database other) = inr (λ e. cc)
constraint-or-not (config s) = inr (λ e. cc)
constraint-or-not (runtime f) = inr (λ e. cc)
constraint-or-not (validation r) = inr (λ e. cc)

module _ (db : Sqlite) where
  unfoldable pub do_call : Call → db.Conn → db.Conn × Result (Unit {0})
  unfolding upsert_alloc set_task_state delete_alloc
  do_call (upserts a) c = upsert_alloc db a c
  do_call (sets id name state count) c = set_task_state db id name state count c
  do_call (deletes id) c = delete_alloc db id c

module _ (db : Sqlite) (tables : Tables db) where
  -- A statement that failed.
  unwritten :
      (q : Statement) (c : db.Conn) (x : Error) (m : Known)
      → (db.execute q c).1 ≡ err x
      → Represents m (tables.content c)
      → Represents m (tables.content (db.execute q c).0)
  unwritten q c x m e h = subst (Represents m) (sym (tables.undone q c x e)) h

  written :
      (q : Statement) (c : db.Conn) (m : Known)
      → (db.execute q c).1 ≡ ok tt
      → Represents m (applied q (tables.content c))
      → Represents m (tables.content (db.execute q c).0)
  written q c m e h = subst (Represents m) (sym (tables.done q c e)) h

  -- An error of a statement that the schema does not refuse.
  unrefused :
      (q : Statement) (c : db.Conn) (x : Error) (m : Known) (k : Call)
      → (db.execute q c).1 ≡ err x
      → ¬ (Refused (tables.content c) q)
      → Allowed m k x
  unrefused q c x m k e no_refusal = elim (constraint-or-not x) [
    | inl p ↦ absurd (no_refusal (tables.refused q c (e ∙ ap (λ y. err y) p)))
    | inr n ↦ unconstrained n
  ]

  put_alloc-unrefused : (t : Content) (r : AllocRow) → ¬ (Refused t (put_alloc r))
  put_alloc-unrefused t r h = elim h [ ]

  delete_tasks-unrefused : (t : Content) (id : String) → ¬ (Refused t (delete_tasks id))
  delete_tasks-unrefused t id h = elim h [ ]

  -- What a call makes of what is known.
  abbrev Stepped : Known → Call → db.Conn × Result (Unit {0}) → Type 0
  Stepped m k r = (m' : Known) × Effect m k r.1 m' × Represents m' (tables.content r.0)

  upsert-Stepped :
      (a : Allocation) (m : Known) (c : db.Conn)
      → Represents m (tables.content c)
      → Stepped m (upserts a) (upsert_alloc db a c)
  unfolding upsert_alloc
  upsert-Stepped a m c h = by_result (db.execute q c).1 refl
    where
      q : Statement
      q = put_alloc (row_of a)

      by_result :
          (r : Result (Unit {0}))
          → (db.execute q c).1 ≡ r
          → Stepped m (upserts a) ((db.execute q c).0, r)
      by_result (ok u) e = (
        updated (upserts a) m,
        succeeds (upserts a),
        written q c _ e (put_alloc-Represents a m _ h),
      )
      by_result (err x) e = (
        m,
        fails (upserts a) x
            (unrefused q c x m (upserts a) e (put_alloc-unrefused (tables.content c) (row_of a))),
        unwritten q c x m e h,
      )

  -- A task's state is refused for an allocation that is not known.
  put_task-orphan :
      (id name : String) (state : TaskState) (count : ℕ) (m : Known) (t : Content)
      → Represents m t
      → Refused t (put_task (task_row id name (state, count)))
      → m.allocs id ≡ none
  unfolding task_row
  put_task-orphan id name state count m t h (orphan r e) =
      ground (arith, h.allocs id, e, Option-cases (m.allocs id))

  set-Stepped :
      (id name : String) (state : TaskState) (count : ℕ) (m : Known) (c : db.Conn)
      → Represents m (tables.content c)
      → Stepped m (sets id name state count) (set_task_state db id name state count c)
  unfolding set_task_state task_row
  set-Stepped id name state count m c h = by_result (db.execute q c).1 refl
    where
      k : Call
      k = sets id name state count

      q : Statement
      q = put_task (task_row id name (state, count))

      why :
          (x : Error)
          → (db.execute q c).1 ≡ err x
          → (x ≡ database constraint) ⊎ (x ≢ database constraint)
          → Allowed m k x
      why x e (inr n) = unconstrained n
      why x e (inl p) =
          unknown_alloc id name state count refl
            (put_task-orphan id name state count m _ h (tables.refused q c (e ∙ ap (λ y. err y) p)))

      by_result :
          (r : Result (Unit {0})) → (db.execute q c).1 ≡ r → Stepped m k ((db.execute q c).0, r)
      by_result (ok u) e =
          (updated k m, succeeds k, written q c _ e (put_task-Represents id name state count m _ h))
      by_result (err x) e = (m, fails k x (why x e (constraint-or-not x)), unwritten q c x m e h)

  -- With the task states gone the allocation's row can go.
  delete_row-unrefused :
      (id : String) (m : Known) (t : Content)
      → Represents (without_tasks id m) t
      → ¬ (Refused t (delete_row id))
  unfolding without_tasks
  delete_row-unrefused id m t h (orphans i name r e) =
      ground (arith, h.tasks id name, e, str_eq_refl id)

  delete-Stepped :
      (id : String) (m : Known) (c : db.Conn)
      → Represents m (tables.content c)
      → Stepped m (deletes id) (delete_alloc db id c)
  unfolding delete_alloc
  delete-Stepped id m c h = by_tasks (db.execute q c).1 refl
    where
      q : Statement
      q = delete_tasks id

      d : db.Conn
      d = (db.execute q c).0

      by_row :
          (r : Result (Unit {0}))
          → (db.execute (delete_row id) d).1 ≡ r
          → Represents (without_tasks id m) (tables.content d)
          → Stepped m (deletes id) ((db.execute (delete_row id) d).0, r)
      by_row (ok u) e g = (
        updated (deletes id) m,
        succeeds (deletes id),
        written (delete_row id) d _ e (delete_row-Represents id m _ g),
      )
      by_row (err x) e g = (
        without_tasks id m,
        halfway id x (
            unrefused (delete_row id) d x m (deletes id) e
              (delete_row-unrefused id m (tables.content d) g)),
        unwritten (delete_row id) d x _ e g,
      )

      by_tasks :
          (r : Result (Unit {0}))
          → (db.execute q c).1 ≡ r
          → Stepped m (deletes id) (and_then (d, r) (λ _ d. db.execute (delete_row id) d))
      by_tasks (ok u) e =
          by_row (db.execute (delete_row id) d).1 refl
            (written q c _ e (delete_tasks-Represents id m _ h))
      by_tasks (err x) e = (
        m,
        fails (deletes id) x
            (unrefused q c x m (deletes id) e (delete_tasks-unrefused (tables.content c) id)),
        unwritten q c x m e h,
      )

  pub call-Stepped :
      (k : Call) (m : Known) (c : db.Conn)
      → Represents m (tables.content c)
      → Stepped m k (do_call db k c)
  unfolding do_call
  call-Stepped (upserts a) m c h = upsert-Stepped a m c h
  call-Stepped (sets id name state count) m c h = set-Stepped id name state count m c h
  call-Stepped (deletes id) m c h = delete-Stepped id m c h

-- ===== src/ClientState/Known.antt =====
-- client_state.rs: what a client knows, and what each call makes of it.
use nomad_rs.Base.{
  ℕ, ◌≡◌, ◌≢◌, refl, ap, true, String, Option, none, some, str_eq, if◌then◌else◌, ◌&&◌, arith,
  Bool-cases, inl, inr,
}
use mathlib.Core.Option
use nomad_rs.Error.{Error, database, constraint, Result, ok, err}
use nomad_rs.Alloc.{Allocation}
use nomad_rs.Driver.{TaskState}
use nomad_rs.ClientState.{TaskRow, put_alloc, put_task, delete_tasks, delete_row, row_of, state_str}
use nomad_rs.ClientState.Tables.{Content, applied}

-- What a client knows: an allocation for an id, and a state and a count for a task of one.
pub record Known : Type 0 where
  pub allocs : String → Option Allocation
  pub tasks : String → String → Option (TaskState × ℕ)

pub data Call : Type 0 where
  upserts : Allocation → Call
  sets : String → String → TaskState → ℕ → Call
  deletes : String → Call

unfoldable pub without_tasks : String → Known → Known
without_tasks id m = record m { tasks = λ a n. if str_eq id a then none else m.tasks a n }

unfoldable pub updated : Call → Known → Known
unfolding without_tasks
updated (upserts a) m = record m { allocs = λ id. if str_eq a.id id then some a else m.allocs id }
updated (sets id name state count) m = record m {
  tasks = λ a n. if str_eq id a && str_eq name n then some (state, count) else m.tasks a n;
}
updated (deletes id) m = record (without_tasks id m) {
  allocs = λ a. if str_eq id a then none else m.allocs a;
}

-- The errors: no constraint of the schema, but that a task's state is set for an allocation that is
-- not known.
pub data Allowed (m : Known) (c : Call) (x : Error) : Type 0 where
  unconstrained : x ≢ database constraint → Allowed m c x
  unknown_alloc :
      (id name : String) (state : TaskState) (count : ℕ)
      → c ≡ sets id name state count
      → m.allocs id ≡ none
      → Allowed m c x

-- A call, its result, and what is known before and after it.
pub data Effect (m : Known) : Call → Result (Unit {0}) → Known → Type 0 where
  succeeds : (c : Call) → Effect m c (ok tt) (updated c m)
  fails : (c : Call) (x : Error) → Allowed m c x → Effect m c (err x) m
  halfway :
      (id : String) (x : Error)
      → Allowed m (deletes id) x
      → Effect m (deletes id) (err x) (without_tasks id m)

unfoldable pub task_row : String → String → TaskState × ℕ → TaskRow
task_row id name (state, count) = record {
  alloc_id = id;
  task_name = name;
  state = state_str state;
  restart_count = count;
}

-- The tables hold what is known.
pub record Represents (m : Known) (t : Content) : Type 0 where
  pub allocs : (id : String) → t.alloc id ≡ Option.map row_of (m.allocs id)
  pub tasks : (id name : String) → t.task id name ≡ Option.map (task_row id name) (m.tasks id name)

pub put_alloc-Represents :
    (a : Allocation) (m : Known) (t : Content)
    → Represents m t
    → Represents (updated (upserts a) m) (applied (put_alloc (row_of a)) t)
unfolding updated applied row_of
put_alloc-Represents a m t h = record {
  allocs =
      λ id. elim (Bool-cases (str_eq a.id id)) [ inl e ↦ rw e refl | inr e ↦ rw e (h.allocs id) ];
  tasks = h.tasks;
}

both-eq : (a b c d : String) → (str_eq a b && str_eq c d) ≡ true → (a ≡ b) × (c ≡ d)
both-eq a b c d h = ground arith

pub put_task-Represents :
    (id name : String) (state : TaskState) (count : ℕ) (m : Known) (t : Content)
    → Represents m t
    → Represents
        (updated (sets id name state count) m)
        (applied (put_task (task_row id name (state, count))) t)
unfolding updated applied task_row
put_task-Represents id name state count m t h = record {
  allocs = h.allocs;
  tasks = λ a n. elim (Bool-cases (str_eq id a && str_eq name n)) [
    | inl e ↦
        let same = both-eq id a name n e in
        rw e (
          ap
            (λ (p : String × String). some (record {
              alloc_id = p.0;
              task_name = p.1;
              state = state_str state;
              restart_count = count;
            }))
            (λ i. (same.0 i, same.1 i)))
    | inr e ↦ rw e (h.tasks a n)
  ];
}

pub delete_tasks-Represents :
    (id : String) (m : Known) (t : Content)
    → Represents m t
    → Represents (without_tasks id m) (applied (delete_tasks id) t)
unfolding without_tasks applied
delete_tasks-Represents id m t h = record {
  allocs = h.allocs;
  tasks = λ a n. elim (Bool-cases (str_eq id a)) [ inl e ↦ rw e refl | inr e ↦ rw e (h.tasks a n) ];
}

pub delete_row-Represents :
    (id : String) (m : Known) (t : Content)
    → Represents (without_tasks id m) t
    → Represents (updated (deletes id) m) (applied (delete_row id) t)
unfolding updated without_tasks applied
delete_row-Represents id m t h = record {
  allocs = λ a. elim (Bool-cases (str_eq id a)) [ inl e ↦ rw e refl | inr e ↦ rw e (h.allocs a) ];
  tasks = h.tasks;
}

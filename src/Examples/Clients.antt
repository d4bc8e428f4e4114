-- ===== src/Examples/Clients.antt =====
-- The client's tables as two lists, and a client's calls on them.
use nomad_rs.Base.{
  ◌≡◌, refl, ap, not, String, Option, none, some, List, [], ◌∷◌, map, str_eq, if◌then◌else◌, ◌&&◌,
  arith, Bool-cases, Option-cases, inl, inr, String_discrete, filter, subst, str_eq_refl,
}
use mathlib.Core.Path.{fun_ext}
use nomad_rs.Error.{Error, database, constraint, Result, ok, err}
use nomad_rs.Driver.{running}
use nomad_rs.ClientState.{
  AllocRow, TaskRow, Statement, put_alloc, put_task, delete_tasks, delete_row, Sqlite, row_of,
  list_allocs, alloc_of, collect, parse_desired_status, parse_client_status, state_str,
  upsert_alloc, set_task_state, delete_alloc,
}
use nomad_rs.ClientState.Tables.{
  find_row, OncePerKey, Listed, Content, applied, Refused, orphan, Tables,
}
use nomad_rs.ClientState.Known.{Known, Call, upserts, sets, deletes, Represents}
use nomad_rs.ClientState.Steps.{do_call}
use nomad_rs.Alloc.{Allocation, desired_str, client_str}
use nomad_rs.ClientState.Refines.{History, Lists, run, run-Lists}
use nomad_rs.Examples.{old_alloc}

unfoldable find_task : String → String → List TaskRow → Option TaskRow
find_task a n [] = none
find_task a n (r ∷ rs) =
    if str_eq r.alloc_id a && str_eq r.task_name n then some r else find_task a n rs

unfoldable drop_row : String → List AllocRow → List AllocRow
drop_row id rs = filter (λ r. not (str_eq r.id id)) rs

unfoldable drop_tasks : String → List TaskRow → List TaskRow
drop_tasks id ts = filter (λ t. not (str_eq t.alloc_id id)) ts

-- The first row for a key.
unfoldable dedupe : List AllocRow → List AllocRow
unfolding drop_row
dedupe [] = []
dedupe (r ∷ rs) = r ∷ drop_row r.id (dedupe rs)

abbrev Lists2 : Type 0
Lists2 = List AllocRow × List TaskRow

unfoldable execute : Statement → Lists2 → Lists2 × Result (Unit {0})
unfolding drop_row drop_tasks
execute (put_alloc r) (rs, ts) = ((r ∷ drop_row r.id rs, ts), ok tt)
execute (put_task t) (rs, ts) = elim (find_row t.alloc_id rs) [
  | none ↦ ((rs, ts), err (database constraint))
  | some _ ↦ ((rs, t ∷ ts), ok tt)
]
execute (delete_tasks id) (rs, ts) = ((rs, drop_tasks id ts), ok tt)
execute (delete_row id) (rs, ts) = ((drop_row id rs, ts), ok tt)

abbrev lists : Sqlite
lists = record {
  Conn = Lists2;
  connect = λ path. ok ([], []);
  create_tables = λ c. (c, ok tt);
  execute = execute;
  select = λ c. ok (map ok (dedupe c.0));
}

find_row-drop_row :
    (j id : String) (rs : List AllocRow)
    → find_row j (drop_row id rs) ≡ (if str_eq id j then none else find_row j rs)
unfolding find_row drop_row
find_row-drop_row j id [] = ground arith
find_row-drop_row j id (r ∷ rs) = ground (arith, find_row-drop_row j id rs)

find_task-drop_tasks :
    (a n id : String) (ts : List TaskRow)
    → find_task a n (drop_tasks id ts) ≡ (if str_eq id a then none else find_task a n ts)
unfolding find_task drop_tasks
find_task-drop_tasks a n id [] = ground arith
find_task-drop_tasks a n id (t ∷ ts) = ground (arith, find_task-drop_tasks a n id ts)

find_row-dedupe : (j : String) (rs : List AllocRow) → find_row j (dedupe rs) ≡ find_row j rs
unfolding find_row dedupe
find_row-dedupe j [] = refl
find_row-dedupe j (r ∷ rs) =
    ground (arith, find_row-drop_row j r.id (dedupe rs), find_row-dedupe j rs)

drop_row-OncePerKey :
    (id : String) (rs : List AllocRow) → OncePerKey rs → OncePerKey (drop_row id rs)
unfolding drop_row
drop_row-OncePerKey id [] h = tt
drop_row-OncePerKey id (r ∷ rs) h = elim (Bool-cases (str_eq r.id id)) [
  | inl e ↦ rw e (drop_row-OncePerKey id rs h.1)
  | inr e ↦ rw e (
    unfold drop_row in ground (arith, find_row-drop_row r.id id rs, h.0),
    drop_row-OncePerKey id rs h.1,
  )
]

dedupe-OncePerKey : (rs : List AllocRow) → OncePerKey (dedupe rs)
unfolding dedupe
dedupe-OncePerKey [] = tt
dedupe-OncePerKey (r ∷ rs) = (
  ground (arith, find_row-drop_row r.id r.id (dedupe rs), str_eq_refl r.id),
  drop_row-OncePerKey r.id (dedupe rs) (dedupe-OncePerKey rs),
)

map-ok_injective :
    (rs ts : List AllocRow)
    → map (λ (r : AllocRow). ok r) rs ≡ map (λ (r : AllocRow). ok r) ts
    → rs ≡ ts
map-ok_injective [] [] h = refl
map-ok_injective [] (t ∷ ts) h = cc
map-ok_injective (r ∷ rs) [] h = cc
map-ok_injective (r ∷ rs) (t ∷ ts) h =
    let p : r ≡ t = ground (arith, h) in
    let q : rs ≡ ts = map-ok_injective rs ts (ground (arith, h)) in λ i. p i ∷ q i

abbrev content : Lists2 → Content
content c = record { alloc = λ id. find_row id c.0; task = λ a n. find_task a n c.1 }

execute-done :
    (q : Statement) (c : Lists2)
    → (execute q c).1 ≡ ok tt
    → content (execute q c).0 ≡ applied q (content c)
unfolding execute applied find_row find_task
execute-done (put_alloc r) (rs, ts) h =
    ap (λ (f : String → Option AllocRow). record { alloc = f; task = λ a n. find_task a n ts })
      (fun_ext (λ id. ground (arith, find_row-drop_row id r.id rs)))
execute-done (put_task t) (rs, ts) h = elim (Option-cases (find_row t.alloc_id rs)) [
  | inl e ↦ absurd (ground (arith, h, e))
  | inr (r, e) ↦ rw (e, execute) refl
]
execute-done (delete_tasks id) (rs, ts) h =
    ap (λ (f : String → String → Option TaskRow). record { alloc = λ j. find_row j rs; task = f })
      (fun_ext (λ a. fun_ext (λ n. find_task-drop_tasks a n id ts)))
execute-done (delete_row id) (rs, ts) h =
    ap (λ (f : String → Option AllocRow). record { alloc = f; task = λ a n. find_task a n ts })
      (fun_ext (λ j. find_row-drop_row j id rs))

execute-undone :
    (q : Statement) (c : Lists2) (x : Error)
    → (execute q c).1 ≡ err x
    → content (execute q c).0 ≡ content c
unfolding execute
execute-undone (put_alloc r) (rs, ts) x h = absurd (ground (arith, h))
execute-undone (put_task t) (rs, ts) x h = elim (Option-cases (find_row t.alloc_id rs)) [
  | inl e ↦ rw (e, execute) refl
  | inr (r, e) ↦ absurd (ground (arith, h, e))
]
execute-undone (delete_tasks id) (rs, ts) x h = absurd (ground (arith, h))
execute-undone (delete_row id) (rs, ts) x h = absurd (ground (arith, h))

execute-Refused :
    (q : Statement) (c : Lists2)
    → (execute q c).1 ≡ err (database constraint)
    → Refused (content c) q
unfolding execute
execute-Refused (put_alloc r) (rs, ts) h = absurd (ground (arith, h))
execute-Refused (put_task t) (rs, ts) h = elim (Option-cases (find_row t.alloc_id rs)) [
  | inl e ↦ orphan t e
  | inr (r, e) ↦ absurd (ground (arith, h, e))
]
execute-Refused (delete_tasks id) (rs, ts) h = absurd (ground (arith, h))
execute-Refused (delete_row id) (rs, ts) h = absurd (ground (arith, h))

lists-Tables : Tables lists
lists-Tables = record {
  content = content;
  done = execute-done;
  undone = execute-undone;
  refused = execute-Refused;
  selected = λ c rows h.
      subst (λ x. Listed x (content c).alloc)
        (map-ok_injective (dedupe c.0) rows (ground (arith, h)))
        (record { finds = λ id. find_row-dedupe id c.0; once = dedupe-OncePerKey c.0 });
}

abbrev nothing : Known
nothing = record { allocs = λ id. none; tasks = λ a n. none }

nothing-Represents : Represents nothing (lists-Tables.content ([], []))
unfolding find_row find_task lists-Tables
nothing-Represents = record { allocs = λ id. refl; tasks = λ a n. refl }

abbrev calls : List Call
calls =
    upserts old_alloc
    ∷ sets "old-0" "web" running 0
    ∷ sets "missing" "web" running 1
    ∷ upserts (record old_alloc { id = "a1" })
    ∷ deletes "old-0"
    ∷ []

abbrev remaining : List Allocation
remaining = record old_alloc { id = "a1" } ∷ []

listed : list_allocs lists (run lists calls ([], [])).0 ≡ ok remaining
unfolding list_allocs run do_call upsert_alloc set_task_state delete_alloc execute find_row dedupe
    drop_row drop_tasks collect alloc_of row_of parse_desired_status parse_client_status desired_str
    client_str state_str String_discrete
listed = refl

run-Lists_example : (m : Known) × History nothing (run lists calls ([], [])).1 m × Lists remaining m
run-Lists_example =
    run-Lists lists lists-Tables calls nothing ([], []) remaining nothing-Represents listed

-- ===== src/ClientState/Tables.antt =====
-- client_state.rs: the two tables as the schema declares them, and what each statement does to them.
use nomad_rs.Base.{◌≡◌, String, Option, none, some, List, [], ◌∷◌, map, str_eq, if◌then◌else◌, ◌&&◌}
use nomad_rs.Error.{ok, err, Error, database, constraint}
use nomad_rs.ClientState.{
  AllocRow, TaskRow, Statement, put_alloc, put_task, delete_tasks, delete_row, Sqlite,
}

-- The row with the key.
unfoldable pub find_row : String → List AllocRow → Option AllocRow
find_row id [] = none
find_row id (r ∷ rs) = if str_eq r.id id then some r else find_row id rs

-- No two rows have one key.
abbrev pub OncePerKey : List AllocRow → Type 0
OncePerKey [] = Unit
OncePerKey (r ∷ rs) = (find_row r.id rs ≡ none) × OncePerKey rs

-- The rows are those of the table, each once.
pub record Listed (rows : List AllocRow) (table : String → Option AllocRow) : Type 0 where
  pub finds : (id : String) → find_row id rows ≡ table id
  pub once : OncePerKey rows

-- What a connection holds: a row of `allocations` for an id, and one of `task_states` for an
-- allocation and a task.
pub record Content : Type 0 where
  pub alloc : String → Option AllocRow
  pub task : String → String → Option TaskRow

-- A statement that succeeds, on the tables.
unfoldable pub applied : Statement → Content → Content
applied (put_alloc r) t = record t { alloc = λ id. if str_eq r.id id then some r else t.alloc id }
applied (put_task r) t = record t {
  task = λ a n. if str_eq r.alloc_id a && str_eq r.task_name n then some r else t.task a n;
}
applied (delete_tasks id) t = record t { task = λ a n. if str_eq id a then none else t.task a n }
applied (delete_row id) t = record t { alloc = λ a. if str_eq id a then none else t.alloc a }

-- The foreign key: a statement is refused that would leave a task state without its allocation.
pub data Refused (t : Content) : Statement → Type 0 where
  orphan : (r : TaskRow) → t.alloc r.alloc_id ≡ none → Refused t (put_task r)
  orphans : (id name : String) (r : TaskRow) → t.task id name ≡ some r → Refused t (delete_row id)

-- SQLite on this schema: each statement is done whole or, with an error, not at all; a constraint
-- error is the foreign key's, which holds in what a connection holds; a `SELECT` returns the rows,
-- each once, in any order.
pub record Tables (db : Sqlite) : Type 0 where
  pub content : db.Conn → Content
  pub done :
      (q : Statement) (c : db.Conn)
      → (db.execute q c).1 ≡ ok tt
      → content (db.execute q c).0 ≡ applied q (content c)
  pub undone :
      (q : Statement) (c : db.Conn) (x : Error)
      → (db.execute q c).1 ≡ err x
      → content (db.execute q c).0 ≡ content c
  pub refused :
      (q : Statement) (c : db.Conn)
      → (db.execute q c).1 ≡ err (database constraint)
      → Refused (content c) q
  pub selected :
      (c : db.Conn) (rows : List AllocRow)
      → db.select c ≡ ok (map ok rows)
      → Listed rows (content c).alloc

-- ===== src/ClientState/Refines.antt =====
-- client_state.rs: what `list_allocs` returns, after any calls.
use nomad_rs.Base.{
  ◌≡◌, refl, sym, ap, subst, ◌∙◌, String, Option, none, some, List, [], ◌∷◌, map, str_eq,
  if◌then◌else◌, arith, Bool-cases, inl, inr, String_discrete,
}
use mathlib.Core.Option
use nomad_rs.Error.{Result, ok, err, ◌>>=◌}
use nomad_rs.Alloc
use nomad_rs.Alloc.{Allocation, DesiredStatus, ClientStatus, desired_str, client_str}
use nomad_rs.ClientState.{
  AllocRow, Sqlite, row_of, alloc_of, parse_desired_status, parse_client_status, collect,
  list_allocs,
}
use nomad_rs.ClientState.Tables.{find_row, OncePerKey, Tables}
use nomad_rs.ClientState.Known.{Known, Call, Effect, Represents}
use nomad_rs.ClientState.Steps.{do_call, call-Stepped}

parse-desired_str : (d : DesiredStatus) → parse_desired_status (desired_str d) ≡ d
unfolding parse_desired_status desired_str String_discrete
parse-desired_str Alloc.run = refl
parse-desired_str Alloc.stop = refl
parse-desired_str Alloc.evict = refl

parse-client_str : (s : ClientStatus) → parse_client_status (client_str s) ≡ s
unfolding parse_client_status client_str String_discrete
parse-client_str Alloc.pending = refl
parse-client_str Alloc.running = refl
parse-client_str Alloc.complete = refl
parse-client_str Alloc.failed = refl
parse-client_str Alloc.lost = refl

alloc_of-row_of : (a : Allocation) → alloc_of (row_of a) ≡ a
unfolding alloc_of row_of
alloc_of-row_of a =
    ground (arith, parse-desired_str a.desired_status, parse-client_str a.client_status)

-- The allocations, each once.
unfoldable pub find_alloc : String → List Allocation → Option Allocation
find_alloc id [] = none
find_alloc id (a ∷ found) = if str_eq a.id id then some a else find_alloc id found

abbrev pub OncePerId : List Allocation → Type 0
OncePerId [] = Unit
OncePerId (a ∷ found) = (find_alloc a.id found ≡ none) × OncePerId found

pub record Lists (found : List Allocation) (m : Known) : Type 0 where
  pub finds : (id : String) → find_alloc id found ≡ m.allocs id
  pub once : OncePerId found

find_alloc-map :
    (id : String) (rows : List AllocRow)
    → find_alloc id (map alloc_of rows) ≡ Option.map alloc_of (find_row id rows)
unfolding find_alloc find_row alloc_of
find_alloc-map id [] = refl
find_alloc-map id (r ∷ rows) = elim (Bool-cases (str_eq r.id id)) [
  | inl e ↦ rw e refl
  | inr e ↦ rw e (find_alloc-map id rows)
]

map-OncePerId : (rows : List AllocRow) → OncePerKey rows → OncePerId (map alloc_of rows)
unfolding alloc_of
map-OncePerId [] h = tt
map-OncePerId (r ∷ rows) h =
    (find_alloc-map r.id rows ∙ ap (Option.map alloc_of) h.0, map-OncePerId rows h.1)

collect-ok :
    (rows : List (Result AllocRow)) (found : List Allocation)
    → collect rows ≡ ok found
    → (good : List AllocRow) × (rows ≡ map ok good) × (found ≡ map alloc_of good)
unfolding collect
collect-ok [] found h = ([], refl, ground (arith, h))
collect-ok (err x ∷ rows) found h = absurd (ground (arith, h))
collect-ok (ok r ∷ rows) found h = by_rest (collect rows) refl h (collect-ok rows)
  where
    by_rest :
        (y : Result (List Allocation))
        → collect rows ≡ y
        → (y >>= λ rest. ok (alloc_of r ∷ rest)) ≡ ok found
        → ((bs : List Allocation)
            → collect rows ≡ ok bs
            → (good : List AllocRow) × (rows ≡ map ok good) × (bs ≡ map alloc_of good))
        → (good : List AllocRow) × ((ok r ∷ rows) ≡ map ok good) × (found ≡ map alloc_of good)
    by_rest (err x) e k f = absurd (ground (arith, k))
    by_rest (ok bs) e k f =
        let (good, p, q) = f bs e in
        (r ∷ good, ap (◌∷◌ (ok r)) p, ground (arith, k) ∙ ap (◌∷◌ (alloc_of r)) q)

-- Calls with their results, and what is known before and after them.
pub data History : Known → List (Call × Result (Unit {0})) → Known → Type 0 where
  start : (m : Known) → History m [] m
  next :
      (m m1 m2 : Known) (k : Call) (r : Result (Unit {0})) (rest : List (Call × Result (Unit {0})))
      → Effect m k r m1
      → History m1 rest m2
      → History m ((k, r) ∷ rest) m2

module _ (db : Sqlite) where
  -- Calls one after the other, whatever they return.
  unfoldable pub run : List Call → db.Conn → db.Conn × List (Call × Result (Unit {0}))
  run [] c = (c, [])
  run (k ∷ ks) c = let r = do_call db k c in let rest = run ks r.0 in (rest.0, (k, r.1) ∷ rest.1)

module _ (db : Sqlite) (tables : Tables db) where
  run-History :
      (ks : List Call) (m : Known) (c : db.Conn)
      → Represents m (tables.content c)
      → (m' : Known) × History m (run db ks c).1 m' × Represents m' (tables.content (run db ks c).0)
  unfolding run
  run-History [] m c h = (m, start m, h)
  run-History (k ∷ ks) m c h =
      let (m1, e, h1) = call-Stepped db tables k m c h in
      let (m2, more, h2) = run-History ks m1 (do_call db k c).0 h1 in
      (m2, next m m1 m2 k _ _ e more, h2)

  list_allocs-Lists :
      (m : Known) (c : db.Conn) (found : List Allocation)
      → Represents m (tables.content c)
      → list_allocs db c ≡ ok found
      → Lists found m
  unfolding list_allocs
  list_allocs-Lists m c found h e = by_select (db.select c) refl e
    where
      by_select :
          (r : Result (List (Result AllocRow)))
          → db.select c ≡ r
          → (r >>= λ rows. collect rows) ≡ ok found
          → Lists found m
      by_select (err x) q k = absurd (ground (arith, k))
      by_select (ok rows) q k =
          let (good, p, same) = collect-ok rows found k in
          let l = tables.selected c good (q ∙ ap (λ x. ok x) p) in
          subst (λ x. Lists x m) (sym same)
            (record {
              finds = λ id.
                  find_alloc-map id good
                  ∙ ap (Option.map alloc_of) (l.finds id ∙ h.allocs id)
                  ∙ back (m.allocs id);
              once = map-OncePerId good l.once;
            })
        where
          back : (o : Option Allocation) → Option.map alloc_of (Option.map row_of o) ≡ o
          back none = refl
          back (some a) = ap (λ x. some x) (alloc_of-row_of a)

  -- After any calls on tables that hold what a client knows, any of which may fail: each call that
  -- returned Ok had its whole effect on what is known; one that failed had none, but that a
  -- `delete_alloc` may have removed the task states and kept the allocation; no call met a
  -- constraint of the schema, but that a task's state was set for an allocation that is not known;
  -- and when `list_allocs` then returns allocations, they are those that are known, each once, with
  -- every field as it was given.
  pub run-Lists :
      (ks : List Call) (m : Known) (c : db.Conn) (found : List Allocation)
      → Represents m (tables.content c)
      → list_allocs db (run db ks c).0 ≡ ok found
      → (m' : Known) × History m (run db ks c).1 m' × Lists found m'
  run-Lists ks m c found h e =
      let (m', history, h') = run-History ks m c h in
      (m', history, list_allocs-Lists m' (run db ks c).0 found h' e)

-- ===== src/RaftLog.antt =====
-- raft_log.rs: the log on disk and its snapshots. A `usize` has 64 bits; the clock is the argument
-- `now`, and what the calls leave in the two files is the state `Files`.
pub mod Mirror
pub mod Reopen
pub mod Indexes
use nomad_rs.Base.{
  ℕ, suc, ◌+◌, ◌-◌, ◌%◌, Bool, true, false, Option, none, some, List, [], ◌∷◌, ◌++◌, length, take,
  drop, get_elem?, leb, ltb, ◌==◌, if◌then◌else◌,
}
use nomad_rs.Error.{Error, runtime, Result, ok, err, ◌>>=◌, log_poisoned}
use nomad_rs.Fsm.{Command}
use nomad_rs.State.{StateStore}

abbrev pub u64_mod : ℕ
u64_mod = 18446744073709551616

pub record RaftLogEntry : Type 0 where
  pub index : ℕ
  pub term : ℕ
  pub timestamp : ℕ
  pub command : Command

pub record RaftSnapshot : Type 0 where
  pub state : StateStore
  pub last_included_index : ℕ
  pub last_included_term : ℕ

-- The paths are those of `Files`.
pub record Inner : Type 0 where
  pub entries : List RaftLogEntry
  pub base_index : ℕ

-- The mutex is the flag `poisoned`.
pub record RaftLogStore : Type 0 where
  pub inner : Inner
  pub poisoned : Bool

-- What the store uses of `serde_json`: the texts of an entry, on one line, and of a snapshot.
pub record Json : Type 1 where
  pub Line : Type 0
  pub Text : Type 0
  pub is_blank : Line → Bool
  pub entry_to_string : RaftLogEntry → Result Line
  pub entry_from_str : Line → Result RaftLogEntry
  pub snapshot_to_string : RaftSnapshot → Result Text
  pub snapshot_from_str : Text → Result RaftSnapshot

-- The lines of the log file, the snapshot and its temporary file, where they exist, and which
-- calls of the file system succeed; one that fails changes nothing.
pub record Files (json : Json) : Type 0 where
  pub log : Option (List json.Line)
  pub snap : Option json.Text
  pub tmp : Option json.Text
  pub appends : Bool
  pub writes : Bool
  pub renames : Bool
  pub creates : Bool

-- `inner.base_index + inner.entries.len() as u64`.
unfoldable pub next_index : Inner → ℕ
next_index i = (i.base_index + length i.entries) % u64_mod

-- The last index, or the one before the first if there is no entry; `saturating_sub` is the
-- subtraction on ℕ.
unfoldable pub last_of : Inner → ℕ
last_of i =
    if length i.entries == 0
    then i.base_index - 1
    else (i.base_index + length i.entries - 1) % u64_mod

unfoldable pub get : ℕ → RaftLogStore → Option RaftLogEntry
get index st =
    if st.poisoned
    then none
    else (if ltb index st.inner.base_index
        then none
        else get_elem? st.inner.entries (index - st.inner.base_index))

-- `entries.get(pos..)` past the end is `None`, and no entries then.
unfoldable pub entries_from : ℕ → RaftLogStore → List RaftLogEntry
entries_from from_index st =
    if st.poisoned
    then []
    else (if ltb from_index st.inner.base_index
        then st.inner.entries
        else drop (from_index - st.inner.base_index) st.inner.entries)

unfoldable pub last_index : RaftLogStore → ℕ
last_index st = if st.poisoned then 0 else last_of st.inner

unfoldable pub last_term_of : List RaftLogEntry → ℕ
last_term_of [] = 0
last_term_of (e ∷ []) = e.term
last_term_of (e ∷ f ∷ es) = last_term_of (f ∷ es)

unfoldable pub last_term : RaftLogStore → ℕ
last_term st = if st.poisoned then 0 else last_term_of st.inner.entries

unfoldable pub len : RaftLogStore → ℕ
len st = if st.poisoned then 0 else length st.inner.entries

unfoldable pub is_empty : RaftLogStore → Bool
unfolding len
is_empty st = len st == 0

-- `drain(..truncate_count)`, with the count cut to the length by `drop`, and the new base.
unfoldable pub compacted : Inner → Inner
compacted i = record {
  entries =
      drop (if leb i.base_index (last_of i) then last_of i - i.base_index + 1 else 0) i.entries;
  base_index = (last_of i + 1) % u64_mod;
}

-- The position of an index, 0 before the first.
unfoldable pub position : ℕ → Inner → ℕ
position from_index i = if leb i.base_index from_index then from_index - i.base_index else 0

module _ (json : Json) where
  open json use {
    Line, is_blank, entry_to_string, entry_from_str, snapshot_to_string, snapshot_from_str,
  }

  -- The loop of `open` over the lines; empty ones are skipped.
  unfoldable pub read_lines : List Line → Result (List RaftLogEntry)
  read_lines [] = ok []
  read_lines (line ∷ lines) =
      let rest = read_lines lines in
      if is_blank line then rest else elim (entry_from_str line) [
        | err e ↦ err e
        | ok entry ↦ elim rest [ err e ↦ err e | ok entries ↦ ok (entry ∷ entries) ]
      ]

  unfoldable pub base_from : Files json → Result ℕ
  base_from fs = elim fs.snap [
    | none ↦ ok 1
    | some text ↦ elim (snapshot_from_str text) [
      | err e ↦ err e
      | ok snap ↦ ok ((snap.last_included_index + 1) % u64_mod)
    ]
  ]

  unfoldable pub log_from : Files json → Result (List RaftLogEntry)
  log_from fs = elim fs.log [ none ↦ ok [] | some lines ↦ read_lines lines ]

  unfoldable pub open_store : Files json → Result RaftLogStore
  open_store fs = elim (base_from fs) [
    | err e ↦ err e
    | ok base ↦ elim (log_from fs) [
      | err e ↦ err e
      | ok entries ↦
          ok (record { inner = record { entries = entries; base_index = base }; poisoned = false })
    ]
  ]

  -- The file of an append, created if it is missing.
  unfoldable pub lines_of : Files json → List Line
  lines_of fs = elim fs.log [ none ↦ [] | some lines ↦ lines ]

  -- The store and the files after a call, with its result.
  abbrev pub Outcome : Type 0 → Type 0
  Outcome A = RaftLogStore × Files json × Result A

  unfoldable pub append : ℕ → ℕ → Command → RaftLogStore → Files json → Outcome RaftLogEntry
  append now term command st fs = elim st.poisoned [
    | true ↦ (st, fs, err (runtime log_poisoned))
    | false ↦
        let entry : RaftLogEntry = record {
          index = next_index st.inner;
          term = term;
          timestamp = now;
          command = command;
        } in
        elim (entry_to_string entry) [
          | err e ↦ (st, fs, err e)
          | ok line ↦ elim fs.appends [
            | false ↦ (st, fs, err Error.io)
            | true ↦ (
              record st { inner = record st.inner { entries = st.inner.entries ++ entry ∷ [] } },
              record fs { log = some (lines_of fs ++ line ∷ []) },
              ok entry,
            )
          ]
        ]
  ]

  -- `write` of the temporary file and `rename` to the snapshot.
  unfoldable pub write_snapshot : RaftSnapshot → Files json → Files json × Result (Unit {0})
  write_snapshot snapshot fs = elim (snapshot_to_string snapshot) [
    | err e ↦ (fs, err e)
    | ok text ↦ elim fs.writes [
      | false ↦ (fs, err Error.io)
      | true ↦ elim fs.renames [
        | false ↦ (record fs { tmp = some text }, err Error.io)
        | true ↦ (record fs { snap = some text; tmp = none }, ok tt)
      ]
    ]
  ]

  -- The loop that writes the entries behind what the file has; an error stops it halfway.
  unfoldable pub write_entries : List RaftLogEntry → List Line → List Line × Result (Unit {0})
  write_entries [] done = (done, ok tt)
  write_entries (entry ∷ rest) done = elim (entry_to_string entry) [
    | err e ↦ (done, err e)
    | ok line ↦ write_entries rest (done ++ line ∷ [])
  ]

  -- `File::create` of the log, which empties it, and the loop.
  unfoldable pub rewrite : List RaftLogEntry → Files json → Files json × Result (Unit {0})
  rewrite entries fs = elim fs.creates [
    | false ↦ (fs, err Error.io)
    | true ↦ (record fs { log = some (write_entries entries []).0 }, (write_entries entries []).1)
  ]

  unfoldable pub create_snapshot : StateStore → ℕ → RaftLogStore → Files json → Outcome RaftSnapshot
  create_snapshot state term st fs = elim st.poisoned [
    | true ↦ (st, fs, err (runtime log_poisoned))
    | false ↦
        let snapshot : RaftSnapshot = record {
          state = state;
          last_included_index = last_of st.inner;
          last_included_term = term;
        } in
        let w = write_snapshot snapshot fs in
        elim w.1 [
          | err e ↦ (st, w.0, err e)
          | ok _ ↦
              let r = rewrite (compacted st.inner).entries w.0 in
              elim r.1 [
                | err e ↦ (record st { inner = compacted st.inner }, r.0, err e)
                | ok _ ↦ (record st { inner = compacted st.inner }, r.0, ok snapshot)
              ]
        ]
  ]

  unfoldable pub install_snapshot : RaftSnapshot → RaftLogStore → Files json → Outcome (Unit {0})
  install_snapshot snapshot st fs = elim st.poisoned [
    | true ↦ (st, fs, err (runtime log_poisoned))
    | false ↦
        let w = write_snapshot snapshot fs in
        elim w.1 [
          | err e ↦ (st, w.0, err e)
          | ok _ ↦
              let r = rewrite [] w.0 in
              (
                record st {
                  inner = record {
                    entries = [];
                    base_index = (snapshot.last_included_index + 1) % u64_mod;
                  };
                },
                r.0,
                r.1,
              )
        ]
  ]

  unfoldable pub truncate : ℕ → RaftLogStore → Files json → Outcome (Unit {0})
  truncate from_index st fs = elim st.poisoned [
    | true ↦ (st, fs, err (runtime log_poisoned))
    | false ↦ elim (leb (length st.inner.entries) (position from_index st.inner)) [
      | true ↦ (st, fs, ok tt)
      | false ↦
          let kept = take (position from_index st.inner) st.inner.entries in
          let r = rewrite kept fs in
          (record st { inner = record st.inner { entries = kept } }, r.0, r.1)
    ]
  ]

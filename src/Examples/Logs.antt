-- ===== src/Examples/Logs.antt =====
-- The log in two files that are empty at first.
use nomad_rs.Base.{◌≡◌, refl, sym, none, some, [], ◌∷◌, true, false, arith}
use nomad_rs.Error.{ok}
use nomad_rs.Fsm.{upsert_job}
use nomad_rs.RaftLog.{
  RaftLogEntry, RaftSnapshot, RaftLogStore, Json, Files, read_lines, base_from, log_from,
  open_store, lines_of, append, next_index, get, create_snapshot, truncate, write_snapshot,
  write_entries, rewrite, compacted, last_of, position,
}
use nomad_rs.RaftLog.Indexes.{Contiguous, Appended, append-Appended}
use nomad_rs.RaftLog.Mirror.{Faithful}
use nomad_rs.RaftLog.Reopen.{opened, appends, truncates, Session-open}
use nomad_rs.Examples.{shop}

-- An encoding that keeps the values.
abbrev plain : Json
plain = record {
  Line = RaftLogEntry;
  Text = RaftSnapshot;
  is_blank = λ l. false;
  entry_to_string = λ e. ok e;
  entry_from_str = λ l. ok l;
  snapshot_to_string = λ s. ok s;
  snapshot_from_str = λ t. ok t;
}

some_of : {A : Type 0} (a b : A) → ok a ≡ ok b → ok b ≡ ok a
some_of a b e = sym e

plain-Faithful : Faithful plain
plain-Faithful = record { entry = λ e line h. (sym h, refl); snapshot = λ s text h. sym h }

abbrev fresh : Files plain
fresh = record {
  log = none;
  snap = none;
  tmp = none;
  appends = true;
  writes = true;
  renames = true;
  creates = true;
}

abbrev empty : RaftLogStore
empty = record { inner = record { entries = []; base_index = 1 }; poisoned = false }

calls : Unit {0}
unfolding read_lines base_from log_from open_store lines_of append next_index create_snapshot
    truncate write_snapshot write_entries rewrite compacted last_of position get
calls = tt

abbrev entry_1 : RaftLogEntry
entry_1 = record { index = 1; term = 2; timestamp = 40; command = upsert_job shop }

opens_empty : open_store plain fresh ≡ ok empty
unfolding calls
opens_empty = refl

appends_one : (append plain 40 2 (upsert_job shop) empty fresh).2 ≡ ok entry_1
unfolding calls
appends_one = refl

empty-Contiguous : Contiguous empty
empty-Contiguous = record { numbered = tt; room = omega arith }

append-Appended_example :
    Appended plain entry_1 empty (append plain 40 2 (upsert_job shop) empty fresh).0
    × (entry_1.term ≡ 2)
    × (entry_1.timestamp ≡ 40)
    × (entry_1.command ≡ upsert_job shop)
append-Appended_example =
    append-Appended plain 40 2 (upsert_job shop) empty fresh empty-Contiguous appends_one

abbrev holding : RaftLogStore
holding = record { inner = record { entries = entry_1 ∷ []; base_index = 1 }; poisoned = false }

holds_one : get 1 holding ≡ some entry_1
unfolding calls
holds_one = refl

-- Two appends, then a truncation that drops the second.
abbrev once : RaftLogStore × Files plain
once = let a = append plain 40 2 (upsert_job shop) empty fresh in (a.0, a.1)

abbrev cut : RaftLogStore × Files plain
cut = let t = truncate plain 1 once.0 once.1 in (t.0, t.1)

cuts : (truncate plain 1 once.0 once.1).2 ≡ ok tt
unfolding calls
cuts = refl

Session-open_example : open_store plain cut.1 ≡ ok cut.0
Session-open_example =
    Session-open plain plain-Faithful
      (truncates 1 (appends 40 2 (upsert_job shop) (opened opens_empty)) cuts)

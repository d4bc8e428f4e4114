-- ===== src/RaftLog/Reopen.antt =====
-- raft_log.rs: runs of a store, and the files that they leave.
use nomad_rs.Base.{ℕ, ◌≡◌}
use nomad_rs.Error.{ok}
use nomad_rs.Fsm.{Command}
use nomad_rs.State.{StateStore}
use nomad_rs.RaftLog.{
  RaftSnapshot, RaftLogStore, Json, Files, open_store, append, create_snapshot, install_snapshot,
  truncate,
}
use nomad_rs.RaftLog.Mirror.{
  Faithful, Mirrored, Mirrored-open, open-Mirrored, append-Mirrored, truncate-Mirrored,
  install-Mirrored, create-Mirrored,
}

-- A run of the store: it is opened, and then called; an append may also fail, and each of the
-- other calls succeeds.
pub data Session (json : Json) : RaftLogStore → Files json → Type 0 where
  opened : {st : RaftLogStore} {fs : Files json} → open_store json fs ≡ ok st → Session json st fs
  appends :
      (now term : ℕ) (c : Command) {st : RaftLogStore} {fs : Files json}
      → Session json st fs
      → Session json (append json now term c st fs).0 (append json now term c st fs).1
  snapshots :
      (state : StateStore) (term : ℕ) {st : RaftLogStore} {fs : Files json} {s : RaftSnapshot}
      → Session json st fs
      → (create_snapshot json state term st fs).2 ≡ ok s
      → Session json
          (create_snapshot json state term st fs).0
          (create_snapshot json state term st fs).1
  installs :
      (s : RaftSnapshot) {st : RaftLogStore} {fs : Files json}
      → Session json st fs
      → (install_snapshot json s st fs).2 ≡ ok tt
      → Session json (install_snapshot json s st fs).0 (install_snapshot json s st fs).1
  truncates :
      (from : ℕ) {st : RaftLogStore} {fs : Files json}
      → Session json st fs
      → (truncate json from st fs).2 ≡ ok tt
      → Session json (truncate json from st fs).0 (truncate json from st fs).1

Session-Mirrored :
    (json : Json) {st : RaftLogStore} {fs : Files json}
    → Faithful json
    → Session json st fs
    → Mirrored json st fs
Session-Mirrored json good (opened e) = open-Mirrored json _ _ e
Session-Mirrored json good (appends now term c p) =
    append-Mirrored json good now term c _ _ (Session-Mirrored json good p)
Session-Mirrored json good (snapshots state term p e) =
    create-Mirrored json good state term _ _ (Session-Mirrored json good p) e
Session-Mirrored json good (installs s p e) =
    install-Mirrored json good s _ _ (Session-Mirrored json good p) e
Session-Mirrored json good (truncates from p e) =
    truncate-Mirrored json good from _ _ (Session-Mirrored json good p) e

-- After any sequence of appends, successful or not, and of successful snapshots, installations and
-- truncations on a store that was opened, the files open to exactly the store in memory: its
-- entries, in order, and its base index.
pub Session-open :
    (json : Json) {st : RaftLogStore} {fs : Files json}
    → Faithful json
    → Session json st fs
    → open_store json fs ≡ ok st
Session-open json good p = Mirrored-open json _ _ (Session-Mirrored json good p)

-- ===== src/RaftLog/Mirror.antt =====
-- raft_log.rs: the files on disk against the store in memory.
use mathlib.Core.List.{append-nil, append_assoc}
use nomad_rs.Base.{
  ℕ, ◌+◌, true, false, ◌≡◌, refl, sym, ◌∙◌, ap, List, [], ◌∷◌, ◌++◌, arith, Bool-cases, inl, inr,
  ◌⊎◌, take, length, leb, ◌%◌,
}
use nomad_rs.Error.{Error, Result, ok, err}
use nomad_rs.Fsm.{Command}
use nomad_rs.State.{StateStore}
use nomad_rs.RaftLog.{
  RaftLogEntry, RaftSnapshot, RaftLogStore, Json, Files, u64_mod, next_index, last_of, read_lines,
  base_from, log_from, open_store, lines_of, append, create_snapshot, install_snapshot, truncate,
  compacted, position, write_snapshot, write_entries, rewrite,
}

-- What serde_json promises of the derived implementations: a text that was written reads back, and
-- no entry is the empty line.
pub record Faithful (json : Json) : Type 0 where
  pub entry :
      (e : RaftLogEntry) (line : json.Line)
      → json.entry_to_string e ≡ ok line
      → (json.entry_from_str line ≡ ok e) × (json.is_blank line ≡ false)
  pub snapshot :
      (s : RaftSnapshot) (text : json.Text)
      → json.snapshot_to_string s ≡ ok text
      → json.snapshot_from_str text ≡ ok s

-- The files hold the store's base index and its entries, and no call has panicked.
pub record Mirrored (json : Json) (st : RaftLogStore) (fs : Files json) : Type 0 where
  pub base : base_from json fs ≡ ok st.inner.base_index
  pub entries : log_from json fs ≡ ok st.inner.entries
  pub sound : st.poisoned ≡ false

Result-cases {ℓ} :
    {A : Type ℓ} (r : Result A) → ((a : A) × (r ≡ ok a)) ⊎ ((x : Error) × (r ≡ err x))
Result-cases (ok a) = inl (a, refl)
Result-cases (err x) = inr (x, refl)

module _ (json : Json) where
  pub Mirrored-open :
      (st : RaftLogStore) (fs : Files json) → Mirrored json st fs → open_store json fs ≡ ok st
  unfolding open_store
  Mirrored-open st fs m = rw (m.base, open_store) (rw (m.entries, open_store) (rw (m.sound) refl))

  pub open-Mirrored :
      (st : RaftLogStore) (fs : Files json) → open_store json fs ≡ ok st → Mirrored json st fs
  unfolding open_store
  open-Mirrored st fs h = record {
    base = ground arith;
    entries = ground arith;
    sound = ground arith;
  }

  module _ (good : Faithful json) where
    read_lines_more :
        (lines : List json.Line) (es : List RaftLogEntry) (line : json.Line) (e : RaftLogEntry)
        → read_lines json lines ≡ ok es
        → json.entry_to_string e ≡ ok line
        → read_lines json (lines ++ line ∷ []) ≡ ok (es ++ e ∷ [])
    unfolding read_lines
    read_lines_more [] es line e h w = ground (arith, good.entry e line w)
    read_lines_more (l ∷ ls) es line e h w = elim (Result-cases (read_lines json ls)) [
      | inl (rest, q) ↦ ground (arith, read_lines_more ls rest line e q w)
      | inr (x, q) ↦ ground arith
    ]

    write_entries-read :
        (es : List RaftLogEntry) (done : List json.Line) (before : List RaftLogEntry)
        → read_lines json done ≡ ok before
        → (write_entries json es done).1 ≡ ok tt
        → read_lines json (write_entries json es done).0 ≡ ok (before ++ es)
    unfolding write_entries
    write_entries-read [] done before h w = h ∙ ap ok (sym (append-nil before))
    write_entries-read (e ∷ es) done before h w = elim (Result-cases (json.entry_to_string e)) [
      | inl (line, q) ↦
          rw (q, write_entries)
            (write_entries-read es (done ++ line ∷ []) (before ++ e ∷ [])
                (read_lines_more done before line e h q) (rw (q, write_entries) at w)
              ∙ ap ok (append_assoc before (e ∷ []) es))
      | inr (x, q) ↦ absurd (ground arith)
    ]

    rewrite-log :
        (es : List RaftLogEntry) (fs : Files json)
        → (rewrite json es fs).1 ≡ ok tt
        → log_from json (rewrite json es fs).0 ≡ ok es
    unfolding rewrite log_from
    rewrite-log es fs h = elim (Bool-cases fs.creates) [
      | inl e ↦
          rw (e, rewrite)
            (write_entries-read es [] [] (unfold read_lines in refl) (rw (e, rewrite) at h))
      | inr e ↦ absurd (ground arith)
    ]

    rewrite-base :
        (es : List RaftLogEntry) (fs : Files json)
        → base_from json (rewrite json es fs).0 ≡ base_from json fs
    unfolding rewrite base_from
    rewrite-base es fs = ground arith

    write_snapshot-base :
        (s : RaftSnapshot) (fs : Files json)
        → (write_snapshot json s fs).1 ≡ ok tt
        → base_from json (write_snapshot json s fs).0 ≡ ok ((s.last_included_index + 1) % u64_mod)
    unfolding write_snapshot base_from
    write_snapshot-base s fs h = elim (Result-cases (json.snapshot_to_string s)) [
      | inl (text, q) ↦ ground (arith, good.snapshot s text q)
      | inr (x, q) ↦ absurd (ground arith)
    ]

    lines_of-read : (fs : Files json) → read_lines json (lines_of json fs) ≡ log_from json fs
    unfolding lines_of log_from read_lines
    lines_of-read fs = ground arith

    pub append-Mirrored :
        (now term : ℕ) (c : Command) (st : RaftLogStore) (fs : Files json)
        → Mirrored json st fs
        → Mirrored json (append json now term c st fs).0 (append json now term c st fs).1
    append-Mirrored now term c st fs m = elim (Result-cases (json.entry_to_string entry)) [
      | inl (line, q) ↦
          let more =
            read_lines_more (lines_of json fs) st.inner.entries line entry
              (lines_of-read fs ∙ m.entries) q in
          record { base = base_kept; entries = entries_kept line q more; sound = sound_kept }
      | inr (x, q) ↦ record { base = base_kept; entries = unchanged x q; sound = sound_kept }
    ]
      where
        entry : RaftLogEntry
        entry = record { index = next_index st.inner; term = term; timestamp = now; command = c }

        base_kept :
            base_from json (append json now term c st fs).1
            ≡ ok (append json now term c st fs).0.inner.base_index
        base_kept = unfold append base_from in ground (arith, m.base, m.sound)

        sound_kept : (append json now term c st fs).0.poisoned ≡ false
        sound_kept = unfold append in ground (arith, m.sound)

        entries_kept :
            (line : json.Line)
            → json.entry_to_string entry ≡ ok line
            → read_lines json (lines_of json fs ++ line ∷ []) ≡ ok (st.inner.entries ++ entry ∷ [])
            → log_from json (append json now term c st fs).1
              ≡ ok (append json now term c st fs).0.inner.entries
        entries_kept line q more =
            unfold append log_from in ground (arith, m.entries, m.sound, q, more)

        unchanged :
            (x : Error)
            → json.entry_to_string entry ≡ err x
            → log_from json (append json now term c st fs).1
              ≡ ok (append json now term c st fs).0.inner.entries
        unchanged x q = unfold append log_from in ground (arith, m.entries, m.sound, q)

    -- The store of the last record with other entries, mirrored by a rewritten log.
    rewrite-Mirrored :
        (es : List RaftLogEntry) (base : ℕ) (st : RaftLogStore) (fs : Files json)
        → st.poisoned ≡ false
        → base_from json fs ≡ ok base
        → (rewrite json es fs).1 ≡ ok tt
        → Mirrored json
            (record st { inner = record { entries = es; base_index = base } })
            (rewrite json es fs).0
    rewrite-Mirrored es base st fs s b h = record {
      base = rewrite-base es fs ∙ b;
      entries = rewrite-log es fs h;
      sound = s;
    }

    truncate-short :
        (from : ℕ) (st : RaftLogStore) (fs : Files json)
        → st.poisoned ≡ false
        → leb (length st.inner.entries) (position from st.inner) ≡ true
        → truncate json from st fs ≡ (st, fs, ok tt)
    unfolding truncate
    truncate-short from st fs s e = ground arith

    truncate-long :
        (from : ℕ) (st : RaftLogStore) (fs : Files json)
        → st.poisoned ≡ false
        → leb (length st.inner.entries) (position from st.inner) ≡ false
        → truncate json from st fs ≡ (
            let kept = take (position from st.inner) st.inner.entries in
            (
              record st { inner = record st.inner { entries = kept } },
              (rewrite json kept fs).0,
              (rewrite json kept fs).1,
            ))
    unfolding truncate
    truncate-long from st fs s e = ground arith

    pub truncate-Mirrored :
        (from : ℕ) (st : RaftLogStore) (fs : Files json)
        → Mirrored json st fs
        → (truncate json from st fs).2 ≡ ok tt
        → Mirrored json (truncate json from st fs).0 (truncate json from st fs).1
    truncate-Mirrored from st fs m h =
        elim (Bool-cases (leb (length st.inner.entries) (position from st.inner))) [
          | inl e ↦ rw (truncate-short from st fs m.sound e) m
          | inr e ↦
              let long = truncate-long from st fs m.sound e in
              rw long (rewrite-Mirrored _ st.inner.base_index st fs m.sound m.base (rw long at h))
        ]

    installed : RaftSnapshot → RaftLogStore → RaftLogStore
    installed s st = record st {
      inner = record { entries = []; base_index = (s.last_included_index + 1) % u64_mod };
    }

    install-written :
        (s : RaftSnapshot) (st : RaftLogStore) (fs : Files json)
        → st.poisoned ≡ false
        → (write_snapshot json s fs).1 ≡ ok tt
        → install_snapshot json s st fs
          ≡ (let r = rewrite json [] (write_snapshot json s fs).0 in (installed s st, r.0, r.1))
    unfolding install_snapshot installed
    install-written s st fs p e = ground arith

    pub install-Mirrored :
        (s : RaftSnapshot) (st : RaftLogStore) (fs : Files json)
        → Mirrored json st fs
        → (install_snapshot json s st fs).2 ≡ ok tt
        → Mirrored json (install_snapshot json s st fs).0 (install_snapshot json s st fs).1
    unfolding installed
    install-Mirrored s st fs m h = elim (Result-cases (write_snapshot json s fs).1) [
      | inl (u, e) ↦
          let written = install-written s st fs m.sound e in
          rw written
            (rewrite-Mirrored [] _ st _ m.sound (write_snapshot-base s fs e) (rw written at h))
      | inr (x, e) ↦ absurd (unfold install_snapshot in ground (arith, m.sound))
    ]

    taken : StateStore → ℕ → RaftLogStore → RaftSnapshot
    taken state term st = record {
      state = state;
      last_included_index = last_of st.inner;
      last_included_term = term;
    }

    create-written :
        (state : StateStore) (term : ℕ) (st : RaftLogStore) (fs : Files json) {s : RaftSnapshot}
        → st.poisoned ≡ false
        → (create_snapshot json state term st fs).2 ≡ ok s
        → ((write_snapshot json (taken state term st) fs).1 ≡ ok tt)
          × ((rewrite json
                (compacted st.inner).entries
                (write_snapshot json (taken state term st) fs).0).1
              ≡ ok tt)
          × (create_snapshot json state term st fs ≡ (
            record st { inner = compacted st.inner },
            (rewrite json
                (compacted st.inner).entries
                (write_snapshot json (taken state term st) fs).0).0,
            ok (taken state term st),
          ))
    unfolding create_snapshot taken
    create-written state term st fs p h = ground arith

    pub create-Mirrored :
        (state : StateStore) (term : ℕ) (st : RaftLogStore) (fs : Files json) {s : RaftSnapshot}
        → Mirrored json st fs
        → (create_snapshot json state term st fs).2 ≡ ok s
        → Mirrored json
            (create_snapshot json state term st fs).0
            (create_snapshot json state term st fs).1
    unfolding taken compacted
    create-Mirrored state term st fs m h =
        let (w, r, e) = create-written state term st fs m.sound h in
        rw e (rewrite-Mirrored _ _ st _ m.sound (write_snapshot-base (taken state term st) fs w) r)

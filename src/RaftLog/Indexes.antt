-- ===== src/RaftLog/Indexes.antt =====
-- raft_log.rs: the indexes of the entries.
use nomad_rs.Base.{
  ℕ, zero, suc, ◌+◌, ◌-◌, ◌≤◌, ◌<◌, ◌%◌, Bool, true, false, ◌≡◌, refl, sym, subst, ◌∙◌, some, List,
  [], ◌∷◌, ◌++◌, length, length-append, take, drop, get_elem?, arith,
}
use nomad_rs.Error.{Error, runtime, log_poisoned, Result, ok, err}
use nomad_rs.Fsm.{Command}
use nomad_rs.RaftLog.{
  u64_mod, RaftLogEntry, Inner, RaftLogStore, Json, Files, next_index, last_of, get, last_index,
  last_term, last_term_of, append, compacted, lines_of, Outcome,
}

-- The entries carry the indexes from `base` on.
abbrev pub Numbered : ℕ → List RaftLogEntry → Type 0
Numbered base [] = Unit
Numbered base (e ∷ es) = (e.index ≡ base) × Numbered (suc base) es

-- The entries are numbered, and there is a number for the next one.
pub record Contiguous (st : RaftLogStore) : Type 0 where
  pub numbered : Numbered st.inner.base_index st.inner.entries
  pub room : st.inner.base_index + length st.inner.entries < u64_mod

Numbered-append :
    (base : ℕ) (es : List RaftLogEntry) (e : RaftLogEntry)
    → e.index ≡ base + length es
    → Numbered base es
    → Numbered base (es ++ e ∷ [])
Numbered-append base [] e h n = (omega (arith, h), tt)
Numbered-append base (x ∷ es) e h n = (n.0, Numbered-append (suc base) es e (omega (arith, h)) n.1)

Numbered-take : (base k : ℕ) (es : List RaftLogEntry) → Numbered base es → Numbered base (take k es)
Numbered-take base zero es n = tt
Numbered-take base (suc k) [] n = tt
Numbered-take base (suc k) (e ∷ es) n = (n.0, Numbered-take (suc base) k es n.1)

drop_all {ℓ} : {A : Type ℓ} (k : ℕ) (xs : List A) → length xs ≤ k → drop k xs ≡ []
drop_all zero [] h = refl
drop_all zero (x ∷ xs) h = absurd (omega (arith, h))
drop_all (suc k) [] h = refl
drop_all (suc k) (x ∷ xs) h = drop_all k xs (omega (arith, h))

mod_small : (n : ℕ) → n < u64_mod → n % u64_mod ≡ n
mod_small n h = omega (arith, h)

-- A snapshot covers the whole log.
compacted_nil : (i : Inner) → i.base_index + length i.entries < u64_mod → (compacted i).entries ≡ []
unfolding compacted last_of
compacted_nil i h = drop_all _ i.entries (ground arith)

Numbered-get :
    (base k : ℕ) (es : List RaftLogEntry) {e : RaftLogEntry}
    → Numbered base es
    → get_elem? es k ≡ some e
    → e.index ≡ base + k
Numbered-get base k [] n h = absurd (ground arith)
Numbered-get base zero (x ∷ es) n h = ground (arith, n.0)
Numbered-get base (suc k) (x ∷ es) {e} n h =
    let later : e.index ≡ suc base + k = Numbered-get (suc base) k es n.1 h in omega (arith, later)

get_elem-append :
    {A : Type 0} (k : ℕ) (es : List A) (e : A)
    → k < length es
    → get_elem? (es ++ e ∷ []) k ≡ get_elem? es k
get_elem-append k [] e h = absurd (omega (arith, h))
get_elem-append zero (x ∷ es) e h = refl
get_elem-append (suc k) (x ∷ es) e h = get_elem-append k es e (omega (arith, h))

get_elem_last : {A : Type 0} (es : List A) (e : A) → get_elem? (es ++ e ∷ []) (length es) ≡ some e
get_elem_last [] e = refl
get_elem_last (x ∷ es) e = get_elem_last es e

last_term-append :
    (es : List RaftLogEntry) (e : RaftLogEntry) → last_term_of (es ++ e ∷ []) ≡ e.term
unfolding last_term_of
last_term-append [] e = refl
last_term-append (x ∷ []) e = refl
last_term-append (x ∷ y ∷ es) e = last_term-append (y ∷ es) e

last-append :
    (es : List RaftLogEntry) (e : RaftLogEntry) (base : ℕ)
    → base + length es < u64_mod
    → last_of (record { entries = es ++ e ∷ []; base_index = base }) ≡ base + length es
unfolding last_of
last-append [] e base h = ground arith
last-append (x ∷ es) e base h = ground (arith, length-append es (e ∷ []))

-- Whatever is read at an index carries that index.
pub get-index :
    (k : ℕ) (st : RaftLogStore) {e : RaftLogEntry} → Contiguous st → get k st ≡ some e → e.index ≡ k
unfolding get
get-index k st {e} c h = ground (
  arith,
  Numbered-get st.inner.base_index (k - st.inner.base_index) st.inner.entries {e = e} c.numbered,
)

module _ (json : Json) where
  -- What a successful append of the entry makes of the store.
  pub record Appended (e : RaftLogEntry) (st after : RaftLogStore) : Type 0 where
    pub numbered : Numbered after.inner.base_index after.inner.entries
    pub found : get e.index after ≡ some e
    pub last : last_index after ≡ e.index
    pub term : last_term after ≡ e.term
    pub older : (k : ℕ) → k < e.index → get k after ≡ get k st

  appended :
      (e : RaftLogEntry) (st : RaftLogStore)
      → Contiguous st
      → st.poisoned ≡ false
      → e.index ≡ next_index st.inner
      → Appended e st
          (record st { inner = record st.inner { entries = st.inner.entries ++ e ∷ [] } })
  unfolding get last_index last_term next_index
  appended e st c s i =
      let at : e.index ≡ st.inner.base_index + length st.inner.entries = i ∙ mod_small _ c.room in
      record {
        numbered = Numbered-append st.inner.base_index st.inner.entries e at c.numbered;
        found = ground (arith, get_elem_last st.inner.entries e);
        last = rw s (last-append st.inner.entries e st.inner.base_index c.room ∙ sym at);
        term = rw s (last_term-append st.inner.entries e);
        older = λ k l. ground (arith, get_elem-append (k - st.inner.base_index) st.inner.entries e);
      }

  -- A successful append to a log whose entries are numbered without a gap returns an entry with
  -- the given term, time and command: it is read back at its index, is the last one, and every
  -- older index reads as before.
  pub append-Appended :
      (now term : ℕ) (c : Command) (st : RaftLogStore) (fs : Files json) {e : RaftLogEntry}
      → Contiguous st
      → (append json now term c st fs).2 ≡ ok e
      → Appended e st (append json now term c st fs).0
        × (e.term ≡ term)
        × (e.timestamp ≡ now)
        × (e.command ≡ c)
  unfolding append
  append-Appended now term c st fs {e} k h = by_mutex st.poisoned refl h
    where
      entry : RaftLogEntry
      entry = record { index = next_index st.inner; term = term; timestamp = now; command = c }

      after : RaftLogStore
      after = record st { inner = record st.inner { entries = st.inner.entries ++ entry ∷ [] } }

      Good : Outcome json RaftLogEntry → Type 0
      Good r = Appended e st r.0 × (e.term ≡ term) × (e.timestamp ≡ now) × (e.command ≡ c)

      written : Bool → json.Line → Outcome json RaftLogEntry
      written b line = elim b [
        | false ↦ (st, fs, err Error.io)
        | true ↦ (after, record fs { log = some (lines_of json fs ++ line ∷ []) }, ok entry)
      ]

      encoded : Result json.Line → Outcome json RaftLogEntry
      encoded r = elim r [ err x ↦ (st, fs, err x) | ok line ↦ written fs.appends line ]

      by_file :
          (b : Bool) (line : json.Line)
          → st.poisoned ≡ false
          → (written b line).2 ≡ ok e
          → Good (written b line)
      by_file false line s q = absurd (ground arith)
      by_file true line s q =
          let same : entry ≡ e = ground arith in
          subst (λ x. Appended x st after × (x.term ≡ term) × (x.timestamp ≡ now) × (x.command ≡ c))
            same (appended entry st k s refl, refl, refl, refl)

      by_text :
          (r : Result json.Line) → st.poisoned ≡ false → (encoded r).2 ≡ ok e → Good (encoded r)
      by_text (err x) s q = absurd (ground arith)
      by_text (ok line) s q = by_file fs.appends line s q

      by_mutex :
          (b : Bool)
          → st.poisoned ≡ b
          → (elim b as (λ _. Outcome json RaftLogEntry) [
            | true ↦ (st, fs, err (runtime log_poisoned))
            | false ↦ encoded (json.entry_to_string entry)
          ]).2
            ≡ ok e
          → Good (elim b as (λ _. Outcome json RaftLogEntry) [
            | true ↦ (st, fs, err (runtime log_poisoned))
            | false ↦ encoded (json.entry_to_string entry)
          ])
      by_mutex true s q = absurd (ground arith)
      by_mutex false s q = by_text (json.entry_to_string entry) s q

-- ===== src/State/Persist.antt =====
-- state.rs: `save` and `load`, over an encoding of the store.
use nomad_rs.Base.{String, ◌≡◌, refl, sym, ◌∙◌, subst, All, All-map_of, map-All, arith, ◌↔◌}
use nomad_rs.Base.HashMap.{HashMap, values, get-insert_self}
use nomad_rs.Error.{Result, ok, err, each, each_iff, ◌>>=◌, ◌>>◌}
use nomad_rs.Jobspec.{validate_job}
use nomad_rs.Alloc.{validate_alloc}
use nomad_rs.Eval.{validate_eval}
use nomad_rs.Node.{validate_node}
use nomad_rs.State.{StateStore, Codec, Disk, write, read, check_all, save, load}

-- Every item of every table passes its validation.
pub record Checked (s : StateStore) : Type 0 where
  pub jobs : All (λ e. validate_job e.1 ≡ ok tt) s.jobs
  pub nodes : All (λ e. validate_node e.1 ≡ ok tt) s.nodes
  pub allocs : All (λ e. validate_alloc e.1 ≡ ok tt) s.allocs
  pub evals : All (λ e. validate_eval e.1 ≡ ok tt) s.evals

each-values :
    {A : Type 0} (f : A → Result (Unit {0})) (m : HashMap A)
    → (each f (values m) ≡ ok tt) ↔ All (λ e. f e.1 ≡ ok tt) m
each-values f m = (
  λ h. All-map_of (λ e. e.1) (λ x. f x ≡ ok tt) m ((each_iff f (values m)).0 h),
  λ h. (each_iff f (values m)).1 (map-All (λ e. e.1) (λ x. f x ≡ ok tt) m h),
)

check_all-Checked : (s : StateStore) → check_all s ≡ ok tt → Checked s
unfolding check_all
check_all-Checked s h = record {
  jobs = (each-values validate_job s.jobs).0 (ground (arith, h));
  nodes = (each-values validate_node s.nodes).0 (ground (arith, h));
  allocs = (each-values validate_alloc s.allocs).0 (ground (arith, h));
  evals = (each-values validate_eval s.evals).0 (ground (arith, h));
}

Checked-check_all : (s : StateStore) → Checked s → check_all s ≡ ok tt
unfolding check_all
Checked-check_all s k = rw ((each-values validate_job s.jobs).1 k.jobs) (
    rw ((each-values validate_node s.nodes).1 k.nodes) (
      rw ((each-values validate_alloc s.allocs).1 k.allocs)
        ((each-values validate_eval s.evals).1 k.evals)))

-- A write that succeeds is what a read of the path returns.
read-write :
    {Bytes : Type 0} (path : String) (b : Bytes) (d : Disk Bytes)
    → (write path b d).1 ≡ ok tt
    → read path (write path b d).0 ≡ ok b
unfolding write read
read-write path b d h = ground (arith, get-insert_self path b d.files)

ok-injective : (t s : StateStore) → ok t ≡ ok s → t ≡ s
ok-injective t s e = cc

-- What `load` makes of what was decoded.
abbrev validated : Result StateStore → Result StateStore
validated x = x >>= λ t. check_all t >> ok t

validated-ok :
    (x : Result StateStore) (s : StateStore) → validated x ≡ ok s → (x ≡ ok s) × Checked s
validated-ok (err e) s h = absurd (ground (arith, h))
validated-ok (ok t) s h = by_check (check_all t) refl h
  where
    by_check :
        (k : Result (Unit {0})) → check_all t ≡ k → (k >> ok t) ≡ ok s → (ok t ≡ ok s) × Checked s
    by_check (err e) q g = absurd (ground (arith, g))
    by_check (ok u) q g = (g, subst Checked (ok-injective t s g) (check_all-Checked t q))

module _ (c : Codec) where
  -- The bytes that were saved of a store decode to another, whose items all pass their validation.
  pub record Reads (saved loaded : StateStore) : Type 0 where
    pub bytes : c.Bytes
    pub encoded : c.to_vec saved ≡ ok bytes
    pub decoded : c.from_slice bytes ≡ ok loaded
    pub checked : Checked loaded

  load-written :
      (path : String) (b : c.Bytes) (d : Disk c.Bytes)
      → (write path b d).1 ≡ ok tt
      → load c path (write path b d).0 ≡ validated (c.from_slice b)
  unfolding load
  load-written path b d w = rw (read-write path b d w) refl

  -- After a save that succeeded, whatever the codec, a load of the same path returns a store exactly
  -- when the bytes that were saved decode to that store and each of its jobs, nodes, allocations and
  -- evaluations passes its validation.
  pub load-save :
      (path : String) (s : StateStore) (d : Disk c.Bytes)
      → (save c path s d).1 ≡ ok tt
      → (t : StateStore) → (load c path (save c path s d).0 ≡ ok t) ↔ Reads s t
  unfolding save
  load-save path s d saved t = by_bytes (c.to_vec s) refl saved
    where
      after : Result c.Bytes → Disk c.Bytes × Result (Unit {0})
      after r = elim r [ err e ↦ (d, err e) | ok bytes ↦ write path bytes d ]

      same_bytes : (b b' : c.Bytes) → ◌≡◌ {A = Result c.Bytes} (ok b) (ok b') → b ≡ b'
      same_bytes b b' e = cc

      by_bytes :
          (r : Result c.Bytes)
          → c.to_vec s ≡ r
          → (after r).1 ≡ ok tt
          → (load c path (after r).0 ≡ ok t) ↔ Reads s t
      by_bytes (err x) e w = cc
      by_bytes (ok b) e w = (
        λ h.
            let k = validated-ok (c.from_slice b) t (sym (load-written path b d w) ∙ h) in
            record { bytes = b; encoded = e; decoded = k.0; checked = k.1 },
        λ k.
            load-written path b d w
            ∙ rw (same_bytes b k.bytes (sym e ∙ k.encoded))
                (rw k.decoded (rw (Checked-check_all t k.checked) refl)),
      )

-- ===== src/Scheduler/Ranking.antt =====
-- The candidates of the scoring path of scheduler.rs and the choice among them.
use nomad_rs.Base.{
  ℕ, ◌+◌, ◌≤◌, true, ◌≡◌, refl, sym, subst, Option, none, some, List, [], ◌∷◌, All, All-map, All-In,
  In, first, further, arith, Bool-cases, inl, inr, Ordering,
}
use nomad_rs.Base.Int.{ℤ, ◌≤ℤ◌, compare_ℤ}
use nomad_rs.Constraint.{Matchers}
use nomad_rs.Jobspec.{Resources, TaskGroup, Job}
use nomad_rs.Eval.{Evaluation}
use nomad_rs.Node.{Node}
use nomad_rs.State.{StateStore}
use nomad_rs.Scheduler.{
  Candidate, is_feasible, candidates, compare_candidates, insert_sorted, sort_by, best,
}
use nomad_rs.Scheduler.Float.{F64}
use nomad_rs.Scheduler.Score.{group_demand, score_node, bonus_for}

-- What `f64::total_cmp` promises: a total order, which ranks the values on a line.
pub record Ranks (fl : F64) : Type 0 where
  pub rank : fl.F → ℤ
  pub total_cmp : (x y : fl.F) → fl.total_cmp x y ≡ compare_ℤ (rank x) (rank y)

module _ (fl : F64) (r : Ranks fl) where
  -- `a` has a greater score than `b`, or the same score and no later a place.
  abbrev pub Beats : Candidate fl.F → Candidate fl.F → Type 0
  Beats a b =
      (r.rank b.score ≤ℤ r.rank a.score) × (r.rank a.score ≤ℤ r.rank b.score → a.order ≤ b.order)

  Beats-refl : (a : Candidate fl.F) → Beats a a
  Beats-refl a = (omega arith, λ h. omega arith)

  Beats-trans : (a b c : Candidate fl.F) → Beats a b → Beats b c → Beats a c
  Beats-trans a b c h k = (
    omega (arith, h.0, k.0),
    λ e. omega (arith, h.0, k.0, h.1 (omega (arith, e, k.0)), k.1 (omega (arith, e, h.0))),
  )

  gt-Beats : (a b : Candidate fl.F) → compare_candidates fl a b ≡ Ordering.gt → Beats b a
  unfolding compare_candidates
  gt-Beats a b h = (
    ground (arith, r.total_cmp b.score a.score),
    λ e. ground (arith, r.total_cmp b.score a.score),
  )

  lt-Beats : (a b : Candidate fl.F) → compare_candidates fl a b ≡ Ordering.lt → Beats a b
  unfolding compare_candidates
  lt-Beats a b h = (
    ground (arith, r.total_cmp b.score a.score),
    λ e. ground (arith, r.total_cmp b.score a.score),
  )

  eq-Beats : (a b : Candidate fl.F) → compare_candidates fl a b ≡ Ordering.eq → Beats a b
  unfolding compare_candidates
  eq-Beats a b h = (
    ground (arith, r.total_cmp b.score a.score),
    λ e. ground (arith, r.total_cmp b.score a.score),
  )

  -- The head of a sorted list beats all that were sorted.
  abbrev Leads : List (Candidate fl.F) → List (Candidate fl.F) → Type 0
  Leads [] cs = cs ≡ []
  Leads (d ∷ ds) cs = In d cs × All (Beats d) cs

  insert_sorted-Leads :
      (c : Candidate fl.F) (ds cs : List (Candidate fl.F))
      → Leads ds cs
      → Leads (insert_sorted fl c ds) (c ∷ cs)
  unfolding insert_sorted
  insert_sorted-Leads c [] cs h = (first cs, (Beats-refl c, subst (All (Beats c)) (sym h) tt))
  insert_sorted-Leads c (d ∷ ds) cs h = by_order (compare_candidates fl c d) refl
    where
      ahead : Beats c d → In c (c ∷ cs) × All (Beats c) (c ∷ cs)
      ahead b = (first cs, (Beats-refl c, All-map _ _ cs (λ x k. Beats-trans c d x b k) h.1))

      by_order :
          (o : Ordering)
          → compare_candidates fl c d ≡ o
          → Leads
              (elim o [
                | Ordering.gt ↦ d ∷ insert_sorted fl c ds
                | Ordering.lt ↦ c ∷ d ∷ ds
                | Ordering.eq ↦ c ∷ d ∷ ds
              ])
              (c ∷ cs)
      by_order Ordering.gt e = (further c h.0, (gt-Beats c d e, h.1))
      by_order Ordering.lt e = ahead (lt-Beats c d e)
      by_order Ordering.eq e = ahead (eq-Beats c d e)

  sort_by-Leads : (cs : List (Candidate fl.F)) → Leads (sort_by fl cs) cs
  unfolding sort_by
  sort_by-Leads [] = refl
  sort_by-Leads (c ∷ cs) = insert_sorted-Leads c (sort_by fl cs) cs (sort_by-Leads cs)

  best-Beats :
      (cs : List (Candidate fl.F)) {c : Candidate fl.F}
      → best fl cs ≡ some c
      → In c cs × All (Beats c) cs
  unfolding best
  best-Beats cs {c} h = by_sorted (sort_by fl cs) (sort_by-Leads cs) h
    where
      by_sorted :
          (ds : List (Candidate fl.F))
          → Leads ds cs
          → elim ds as (λ _. Option (Candidate fl.F)) [ [] ↦ none | d ∷ rest ↦ some d ] ≡ some c
          → In c cs × All (Beats c) cs
      by_sorted [] l e = absurd (ground arith)
      by_sorted (d ∷ ds) l e =
          let same : d ≡ c = ground arith in subst (λ x. In x cs × All (Beats x) cs) same l

module _ (lib : Matchers) (fl : F64) (ev : Evaluation) (job : Job) (g : TaskGroup)
    (s : StateStore) where
  -- The score of an entry for the group.
  abbrev pub score_of : Node × Resources → fl.F
  score_of e = score_node lib fl e.0 e.1 (group_demand g) g (bonus_for fl g e.0 s)

  -- The candidate is made of the entry.
  abbrev pub MadeOf : Candidate fl.F → Node × Resources → Type 0
  MadeOf c e = (c.node ≡ e.0) × (c.free ≡ e.1) × (c.score ≡ score_of e)

  -- Every candidate is made of a feasible entry.
  pub record Stands (free : List (Node × Resources)) (c : Candidate fl.F) : Type 0 where
    pub entry : Node × Resources
    pub listed : In entry free
    pub feasible : is_feasible lib g (group_demand g) entry ≡ true
    pub made : MadeOf c entry

  Stands-later :
      (e : Node × Resources) (free : List (Node × Resources)) (c : Candidate fl.F)
      → Stands free c
      → Stands (e ∷ free) c
  Stands-later e free c h = record {
    entry = h.entry;
    listed = further e h.listed;
    feasible = h.feasible;
    made = h.made;
  }

  candidates-Stands :
      (idx : ℕ) (free : List (Node × Resources))
      → All (Stands free) (candidates lib ev job g fl s idx free)
  unfolding candidates
  candidates-Stands idx [] = tt
  candidates-Stands idx ((n, avail) ∷ free) =
      let rest = All-map _ _ _ (Stands-later (n, avail) free) (candidates-Stands (idx + 1) free) in
      elim (Bool-cases (is_feasible lib g (group_demand g) (n, avail))) [
        | inl e ↦ rw e (
          record {
            entry = (n, avail);
            listed = first free;
            feasible = e;
            made = (refl, refl, refl);
          },
          rest,
        )
        | inr e ↦ rw e rest
      ]

  -- Every feasible entry has its candidate.
  candidate_for :
      (P : Candidate fl.F → Type 0) (idx : ℕ) (free : List (Node × Resources))
      (e : Node × Resources)
      → In e free
      → is_feasible lib g (group_demand g) e ≡ true
      → All P (candidates lib ev job g fl s idx free)
      → (c : Candidate fl.F) × P c × MadeOf c e
  unfolding candidates
  candidate_for P idx [] e i f h = elim i [ ]
  candidate_for P idx (_ ∷ _) (n, avail) (first free) f h =
      let head : P _ × All P (candidates lib ev job g fl s (idx + 1) free) = rw f at h in
      (_, head.0, (refl, refl, refl))
  candidate_for P idx ((n, avail) ∷ free) e (further x i) f h =
      elim (Bool-cases (is_feasible lib g (group_demand g) (n, avail))) [
        | inl y ↦ candidate_for P (idx + 1) free e i f (rw y at h).1
        | inr y ↦ candidate_for P (idx + 1) free e i f (rw y at h)
      ]

  -- The candidate that the scoring path takes is made of a feasible entry, and no feasible entry
  -- has a greater score, whatever order ranks the scores.
  pub best-candidates :
      (r : Ranks fl) (free : List (Node × Resources)) (c : Candidate fl.F) (e : Node × Resources)
      → best fl (candidates lib ev job g fl s 0 free) ≡ some c
      → In e free
      → is_feasible lib g (group_demand g) e ≡ true
      → Stands free c × (r.rank (score_of e) ≤ℤ r.rank c.score)
  best-candidates r free c e h i f =
      let (mine, beats) = best-Beats fl r (candidates lib ev job g fl s 0 free) h in
      let (d, won, made) = candidate_for (Beats fl r c) 0 free e i f beats in
      (
        All-In (Stands free) c _ (candidates-Stands 0 free) mine,
        subst (λ x. r.rank x ≤ℤ r.rank c.score) made.2 won.0,
      )

-- ===== src/Acl/Grants.antt =====
-- acl.rs: when a token allows an access.
use nomad_rs.Base.{
  Bool, true, false, ◌≡◌, refl, sym, ap, ◌∙◌, All, String, Option, none, some, List, [], ◌∷◌, arith,
  ◌⊎◌, inl, inr, ◌↔◌, Bool-cases, if◌then◌else◌, not, ◌≢◌,
}
use nomad_rs.Base.HashMap.{get}
use nomad_rs.Acl.{
  Capability, read, write, deny, Policy, Token, contains, decides, at_least, allows_from, allows,
}

-- The policy says nothing of the access, because it is not the token's, it has no rule for the
-- resource, or a lesser one.
pub data Silent (own : List String) (resource : String) (c : Capability) (p : Policy) : Type 0 where
  foreign : contains own p.name ≡ false → Silent own resource c p
  unruled : get resource p.rules ≡ none → Silent own resource c p
  lesser :
      (g : Capability)
      → get resource p.rules ≡ some g
      → g ≢ deny
      → at_least g c ≡ false
      → Silent own resource c p

-- The first policy that says something grants the access, with a rule that is not a denial.
pub data Grants (own : List String) (resource : String) (c : Capability)
    : List Policy → Type 0 where
  grants :
      (g : Capability) (p : Policy) (ps : List Policy)
      → contains own p.name ≡ true
      → get resource p.rules ≡ some g
      → g ≢ deny
      → at_least g c ≡ true
      → Grants own resource c (p ∷ ps)
  skips :
      (p : Policy) {ps : List Policy}
      → Silent own resource c p
      → Grants own resource c ps
      → Grants own resource c (p ∷ ps)

decides-granted :
    (c g : Capability) → g ≢ deny → at_least g c ≡ true → decides c (some g) ≡ some true
decides-granted c read d e = rw e refl
decides-granted c write d e = rw e refl
decides-granted c deny d e = absurd (d refl)

some-injective : (g h : Capability) → ◌≡◌ {A = Option Capability} (some g) (some h) → g ≡ h
some-injective g h e = cc

undenied_of_Silent :
    {own : List String} {resource : String} {c : Capability} (p : Policy)
    → Silent own resource c p
    → contains own p.name ≡ true
    → get resource p.rules ≢ some deny
undenied_of_Silent p (foreign a) b k = ground (arith, a, b)
undenied_of_Silent p (unruled a) b k = ground (arith, a, k)
undenied_of_Silent p (lesser g e d l) b k = d (some-injective g deny (sym e ∙ k))

-- What an answer says of the rule.
Answers : Capability → Option Capability → Option Bool → Type 0
Answers c o none =
    (o ≡ none) ⊎ ((g : Capability) × (o ≡ some g) × (g ≢ deny) × (at_least g c ≡ false))
Answers c o (some true) = (g : Capability) × (o ≡ some g) × (g ≢ deny) × (at_least g c ≡ true)
Answers c o (some false) = Unit

decides-Answers : (c : Capability) (o : Option Capability) → Answers c o (decides c o)
unfolding Answers
decides-Answers c none = inl refl
decides-Answers c (some deny) = tt
decides-Answers c (some read) = elim (Bool-cases (at_least read c)) [
  | inl e ↦ rw e (read, refl, (λ p. ground (arith, p)), e)
  | inr e ↦ rw e (inr (read, refl, (λ p. ground (arith, p)), e))
]
decides-Answers c (some write) = elim (Bool-cases (at_least write c)) [
  | inl e ↦ rw e (write, refl, (λ p. ground (arith, p)), e)
  | inr e ↦ rw e (inr (write, refl, (λ p. ground (arith, p)), e))
]

module _ (own : List String) (resource : String) (c : Capability) where
  allows_from-Grants :
      (ps : List Policy) → allows_from own resource c ps ≡ true → Grants own resource c ps
  unfolding allows_from Answers
  allows_from-Grants [] h = absurd (ground (arith, h))
  allows_from-Grants (p ∷ ps) h =
      by_own (contains own p.name) refl (decides c (get resource p.rules))
        (decides-Answers c (get resource p.rules)) (allows_from-Grants ps) h
    where
      by_own :
          (b : Bool)
          → contains own p.name ≡ b
          → (o : Option Bool) → Answers c (get resource p.rules) o
          → (allows_from own resource c ps ≡ true → Grants own resource c ps)
          → (if not b
              then allows_from own resource c ps
              else (elim o as (λ _. Bool) [ some x ↦ x | none ↦ allows_from own resource c ps ]))
            ≡ true
          → Grants own resource c (p ∷ ps)
      by_own false a o k again e = skips p (foreign a) (again e)
      by_own true a none (inl b) again e = skips p (unruled b) (again e)
      by_own true a none (inr (g, b, d, l)) again e = skips p (lesser g b d l) (again e)
      by_own true a (some true) (g, b, d, l) again e = grants g p ps a b d l
      by_own true a (some false) k again e = absurd (ground (arith, e))

-- Some policy of the token's own has a rule for the resource that is at least the capability and
-- no denial.
pub data Granted (own : List String) (resource : String) (c : Capability)
    : List Policy → Type 0 where
  granted_by :
      (g : Capability) (p : Policy) (ps : List Policy)
      → contains own p.name ≡ true
      → get resource p.rules ≡ some g
      → g ≢ deny
      → at_least g c ≡ true
      → Granted own resource c (p ∷ ps)
  granted_later :
      (p : Policy) {ps : List Policy} → Granted own resource c ps → Granted own resource c (p ∷ ps)

-- Every policy of the token's own has no denial for the resource.
abbrev pub Undenied : List String → String → List Policy → Type 0
Undenied own resource ps =
    All (λ p. contains own p.name ≡ true → get resource p.rules ≢ some deny) ps

-- No policy of the token's own grants the access ahead of one of its own that denies the resource.
abbrev pub DenialsFirst : List String → String → Capability → List Policy → Type 0
DenialsFirst own resource c [] = Unit
DenialsFirst own resource c (p ∷ ps) =
    (Granted own resource c (p ∷ []) → Undenied own resource ps) × DenialsFirst own resource c ps

module _ (own : List String) (resource : String) (c : Capability) where
  allows_from-Documented :
      (ps : List Policy)
      → DenialsFirst own resource c ps
      → Grants own resource c ps
      → Granted own resource c ps × Undenied own resource ps
  allows_from-Documented _ f (grants g p ps a b d e) = (
    granted_by g p ps a b d e,
    (λ _ k. d (some-injective g deny (sym b ∙ k)), f.0 (granted_by g p [] a b d e)),
  )
  allows_from-Documented _ f (skips p s h) =
      let (k, u) = allows_from-Documented _ f.1 h in
      (granted_later p k, (undenied_of_Silent p s, u))

  Documented-allows_from :
      (ps : List Policy)
      → Granted own resource c ps
      → Undenied own resource ps
      → allows_from own resource c ps ≡ true
  unfolding allows_from
  Documented-allows_from _ (granted_by g p ps a b d e) u =
      rw (a, allows_from) (rw (b, allows_from) (rw (decides-granted c g d e, allows_from) refl))
  Documented-allows_from _ (granted_later p {ps} h) u =
      by_own (contains own p.name) refl (get resource p.rules) refl
        (Documented-allows_from ps h u.1)
    where
      by_rule :
          (g : Capability)
          → g ≢ deny
          → allows_from own resource c ps ≡ true
          → (elim (decides c (some g)) as (λ _. Bool) [
            | some x ↦ x
            | none ↦ allows_from own resource c ps
          ])
            ≡ true
      by_rule deny n k = absurd (n refl)
      by_rule read n k = ground (arith, k)
      by_rule write n k = ground (arith, k)

      by_own :
          (b : Bool)
          → contains own p.name ≡ b
          → (o : Option Capability) → get resource p.rules ≡ o
          → allows_from own resource c ps ≡ true
          → (if not b then allows_from own resource c ps else (elim (decides c o) as (λ _. Bool) [
            | some x ↦ x
            | none ↦ allows_from own resource c ps
          ]))
            ≡ true
      by_own false a o r k = k
      by_own true a none r k = k
      by_own true a (some g) r k = by_rule g (λ e. u.0 a (r ∙ ap (λ x. some x) e)) k

-- When no policy of the token's own grants an access ahead of one that denies the resource, the
-- token allows the access exactly when it is a management token, or when some policy of its own
-- grants it and no policy of its own denies the resource: an explicit denial wins.
pub allows-iff-Documented :
    (t : Token) (resource : String) (c : Capability) (ps : List Policy)
    → DenialsFirst t.policies resource c ps
    → (allows t resource c ps ≡ true) ↔ (
        (t.management ≡ true)
        ⊎ (Granted t.policies resource c ps × Undenied t.policies resource ps))
unfolding allows
allows-iff-Documented t resource c ps f = elim (Bool-cases t.management) [
  | inl m ↦ (λ h. inl m, λ h. ground (arith, m))
  | inr m ↦ (
    λ h. inr (
        allows_from-Documented t.policies resource c ps f
          (allows_from-Grants t.policies resource c ps (ground (arith, h, m)))),
    λ h. elim h [
      | inl n ↦ absurd (ground (arith, n, m))
      | inr g ↦ ground (arith, m, Documented-allows_from t.policies resource c ps g.0 g.1)
    ],
  )
]

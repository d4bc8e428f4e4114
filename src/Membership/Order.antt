-- ===== src/Membership/Order.antt =====
-- membership.rs: the order in which claims arrive, and a leave.
use nomad_rs.Base.{
  ℕ, ◌+◌, ◌%◌, ◌<◌, ◌≡◌, ◌≢◌, refl, sym, ap, ◌∙◌, String, Option, some, List, [], ◌∷◌, All, arith,
  str_eq, str_eq→eq, Bool-cases, inl, inr, String_discrete, if◌then◌else◌,
}
use nomad_rs.Base.HashMap.{get, insert, get-insert_self, insert-Distinct, insert-All}
use nomad_rs.Membership.{
  Entry, Wire, Roster, GossipMembership, Msg, left, gossip, entry_of, merge, snapshot, on_msg,
  mark_left, leave, u64_mod,
}
use nomad_rs.Membership.Lookup.{rank, newer, latest, get-merge, get_own-merge, latest-snapshot}
use nomad_rs.Rpc.Wire.{Codec}
use nomad_rs.Membership.Exchange.{IsRoster, Consistent}

-- What a member said of itself with an incarnation: every claim repeats it.
abbrev pub Told : (String → ℕ → Wire) → List Wire → Type 0
Told said ws = All (λ w. w ≡ said w.name w.incarnation) ws

newer-swap : (o x y : Option Entry) → Consistent x y → newer (newer o x) y ≡ newer (newer o y) x
newer-swap o x y c = ground arith

-- The same claims in another order, by swaps of neighbours.
pub data Reordered : List Wire → List Wire → Type 0 where
  done : Reordered [] []
  keeps : (w : Wire) {ws vs : List Wire} → Reordered ws vs → Reordered (w ∷ ws) (w ∷ vs)
  swaps : (x y : Wire) (ws : List Wire) → Reordered (x ∷ y ∷ ws) (y ∷ x ∷ ws)
  via : {ws us vs : List Wire} → Reordered ws us → Reordered us vs → Reordered ws vs

module _ (said : String → ℕ → Wire) where
  Told-Reordered : {ws vs : List Wire} → Reordered ws vs → Told said ws → Told said vs
  Told-Reordered done h = tt
  Told-Reordered (keeps w p) h = (h.0, Told-Reordered p h.1)
  Told-Reordered (swaps x y ws) h = (h.1.0, (h.0, h.1.1))
  Told-Reordered (via p q) h = Told-Reordered q (Told-Reordered p h)

  -- Claims of one name and one incarnation are one claim.
  told-Consistent :
      (x y : Wire)
      → x ≡ said x.name x.incarnation
      → y ≡ said y.name y.incarnation
      → x.name ≡ y.name
      → Consistent (some (entry_of x)) (some (entry_of y))
  told-Consistent x y hx hy n e =
      ap (λ w. some (entry_of w))
        (hx ∙ ap (λ m. said m x.incarnation) n ∙ ap (said y.name) (omega (arith, e)) ∙ sym hy)

  -- Two neighbours, in either order.
  folded_swap :
      (k : String) (o : Option Entry) (x y : Wire)
      → x ≡ said x.name x.incarnation
      → y ≡ said y.name y.incarnation
      → (if str_eq y.name k
          then newer
              (if str_eq x.name k then newer o (some (entry_of x)) else o)
              (some (entry_of y))
          else (if str_eq x.name k then newer o (some (entry_of x)) else o))
        ≡ (if str_eq x.name k
            then newer
                (if str_eq y.name k then newer o (some (entry_of y)) else o)
                (some (entry_of x))
            else (if str_eq y.name k then newer o (some (entry_of y)) else o))
  folded_swap k o x y hx hy = elim (Bool-cases (str_eq x.name k)) [
    | inl p ↦ elim (Bool-cases (str_eq y.name k)) [
      | inl q ↦ rw p (
          rw q (
            newer-swap o (some (entry_of x)) (some (entry_of y))
              (told-Consistent x y hx hy (str_eq→eq _ _ p ∙ sym (str_eq→eq _ _ q)))))
      | inr q ↦ rw p (rw q refl)
    ]
    | inr p ↦ rw p refl
  ]

  latest-Reordered :
      (k : String) {ws vs : List Wire}
      → Reordered ws vs
      → Told said ws
      → (o : Option Entry) → latest k o ws ≡ latest k o vs
  unfolding latest
  latest-Reordered k done h o = refl
  latest-Reordered k (keeps w p) h o = latest-Reordered k p h.1 _
  latest-Reordered k (swaps x y ws) h o = ap (λ z. latest k z ws) (folded_swap k o x y h.0 h.1.0)
  latest-Reordered k (via p q) h o =
      latest-Reordered k p h o ∙ latest-Reordered k q (Told-Reordered p h) o

  -- Claims merged in another order leave the same entry under every name, if claims of one name and
  -- one incarnation are the same claim.
  pub merge-Reordered :
      (name k : String) (r : Roster) {ws vs : List Wire}
      → Reordered ws vs
      → Told said ws
      → get k (merge name ws r) ≡ get k (merge name vs r)
  merge-Reordered name k r {ws} {vs} p h = elim (String_discrete k name) [
    | yes e ↦ rw e (get_own-merge name ws r ∙ sym (get_own-merge name vs r))
    | no n ↦
        get-merge k name ws r n ∙ latest-Reordered k p h (get k r) ∙ sym (get-merge k name vs r n)
  ]

leave-IsRoster :
    (name : String) (inc : ℕ) (e : Entry) (r : Roster)
    → IsRoster r
    → e.member.name ≡ name
    → IsRoster
        (insert name (record { member = record e.member { status = left }; incarnation = inc }) r)
leave-IsRoster name inc e r h n = record {
  distinct = insert-Distinct name _ r h.distinct;
  filed = insert-All _ name _ r (sym n) h.filed;
}

mark_left-own :
    (name : String) (inc : ℕ) (e : Entry) (r : Roster)
    → get name r ≡ some e
    → mark_left name inc r
      ≡ insert name (record { member = record e.member { status = left }; incarnation = inc }) r
unfolding mark_left
mark_left-own name inc e r h = ground (arith, h)

newer_below : (x y : Option Entry) → rank x < rank y → newer x y ≡ y
newer_below x y l = ground arith

-- After `leave`, a peer that takes in the gossip holds the member as having left, under the
-- incarnation that follows the member's own, with its name and address as before: for a member
-- whose roster has one entry for a name, filed under it, and its own among them, with an incarnation
-- that does not overflow, and a peer of another name that knows no later incarnation of it.
pub leave-spreads :
    (codec : Codec Msg) (g : GossipMembership) (e : Entry) (peer : String) (r : Roster)
    → IsRoster g.roster
    → get g.name g.roster ≡ some e
    → e.member.name ≡ g.name
    → g.incarnation + 1 < u64_mod
    → g.name ≢ peer
    → rank (get g.name r) < g.incarnation + 2
    → get g.name (on_msg peer (gossip (snapshot (leave codec g).0.roster)) r).0
      ≡ some
          (record { member = record e.member { status = left }; incarnation = g.incarnation + 1 })
unfolding on_msg leave
leave-spreads codec g e peer r h own n small ne below =
    let inc = (g.incarnation + 1) % u64_mod in
    let kept : inc ≡ g.incarnation + 1 = omega (arith, small) in
    let marked : Entry = record { member = record e.member { status = left }; incarnation = inc } in
    let roster = insert g.name marked g.roster in
    let w = leave-IsRoster g.name inc e g.roster h n in
    ap (λ x. get g.name (merge peer (snapshot x) r)) (mark_left-own g.name inc e g.roster own)
    ∙ get-merge g.name peer (snapshot roster) r ne
    ∙ latest-snapshot g.name (get g.name r) roster w.distinct w.filed
    ∙ ap (newer (get g.name r)) (get-insert_self g.name marked g.roster)
    ∙ newer_below (get g.name r) (some marked) (omega (arith, kept, below))
    ∙ ap (λ i. some (record { member = record e.member { status = left }; incarnation = i })) kept

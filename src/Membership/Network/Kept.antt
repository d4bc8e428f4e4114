-- ===== src/Membership/Network/Kept.antt =====
-- membership.rs: the claims of a network after a member's change.
use nomad_rs.Base.{
  ℕ, ◌≤◌, ◌≡◌, refl, sym, ap, subst, ◌∙◌, String, none, some, List, [], ◌∷◌, ◌++◌, All, All-map,
  All-append, map, map-All, arith, String_discrete, str_eq, Bool-cases, inl, inr,
}
use nomad_rs.Base.HashMap.{HashMap, get, insert, get-insert_self, get-insert_ne, insert-All}
use nomad_rs.Membership.{
  Entry, Wire, Roster, Msg, GossipMembership, entry_of, wire_of, supersedes, merge_one, merge,
  snapshot,
}
use nomad_rs.Membership.Network.{says, TrueClaim, claims, TruthfulMember, Truthful}

-- The later state of a member: its name and address, and no lower incarnation.
pub record Later (g h : GossipMembership) : Type 0 where
  pub name : h.name ≡ g.name
  pub addr : h.addr ≡ g.addr
  pub past : g.incarnation ≤ h.incarnation

says-Later : (g h : GossipMembership) (n : ℕ) → Later g h → says g n ≡ says h n
says-Later g h n l =
    ap (λ x. record (says g n) { name = x }) (sym l.name)
    ∙ ap (λ x. record (says h n) { addr = x }) (sym l.addr)

pub some-injective : {a b : GossipMembership} → some a ≡ some b → a ≡ b
some-injective {a} e = ap (λ o. elim o [ none ↦ a | some x ↦ x ]) e

module _ (ms : HashMap GossipMembership) (name : String) (h : GossipMembership)
    (later : (g : GossipMembership) → get name ms ≡ some g → Later g h) where
  -- A claim that was made stays so.
  pub kept : (c : Wire) → TrueClaim ms c → TrueClaim (insert name h ms) c
  kept c t = elim (String_discrete name c.name) [
    | yes p ↦
        let l = later t.subject (ap (λ k. get k ms) p ∙ t.known) in
        record {
          subject = h;
          known = ap (λ k. get k (insert name h ms)) (sym p) ∙ get-insert_self name h ms;
          said = t.said ∙ says-Later t.subject h c.incarnation l;
          past = omega (arith, t.past, l.past);
        }
    | no p ↦ record {
      subject = t.subject;
      known = get-insert_ne name c.name h ms p ∙ t.known;
      said = t.said;
      past = t.past;
    }
  ]

  kept_all : (cs : List Wire) → All (TrueClaim ms) cs → All (TrueClaim (insert name h ms)) cs
  kept_all cs a = All-map _ _ cs kept a

  kept_member :
      (m n : ℕ) (k : String) (g : GossipMembership)
      → m ≤ n
      → TruthfulMember ms m k g
      → TruthfulMember (insert name h ms) n k g
  kept_member m n k g l t = record {
    named = t.named;
    own = t.own;
    counted = omega (arith, l, t.counted);
    roster = All-map _ _ g.roster (λ e q. (kept (wire_of e.1) q.0, q.1)) t.roster;
  }

  -- The network after the member's change and the messages that it sends.
  pub updated :
      (m n : ℕ) (sent news : List Msg)
      → m ≤ n
      → Truthful m (record { members = ms; sent = sent })
      → TruthfulMember (insert name h ms) n name h
      → All (λ x. All (TrueClaim (insert name h ms)) (claims x)) news
      → Truthful n (record { members = insert name h ms; sent = news ++ sent })
  updated m n sent news l t own fresh = record {
    members = λ k g e. elim (String_discrete name k) [
      | yes p ↦
          subst (λ x. TruthfulMember (insert name h ms) n x g) p
            (subst (TruthfulMember (insert name h ms) n name)
              (some-injective
                (sym (get-insert_self name h ms) ∙ ap (λ x. get x (insert name h ms)) p ∙ e))
              own)
      | no p ↦ kept_member m n k g l (t.members k g (sym (get-insert_ne name k h ms p) ∙ e))
    ];
    sent = All-append _ news sent fresh (All-map _ _ sent (λ x a. kept_all (claims x) a) t.sent);
  }

-- A roster's claims, after a merge of claims.
module _ (ms : HashMap GossipMembership) where
  abbrev pub Recorded : String × Entry → Type 0
  Recorded e = TrueClaim ms (wire_of e.1) × (e.0 ≡ e.1.member.name)

  merge_one-Recorded :
      (name : String) (c : Wire) (r : Roster)
      → TrueClaim ms c
      → All Recorded r
      → All Recorded (merge_one name c r)
  unfolding merge_one
  merge_one-Recorded name c r t h = elim (Bool-cases (str_eq c.name name)) [
    | inl e ↦ rw (e, merge_one) h
    | inr e ↦ elim (Bool-cases (supersedes c (get c.name r))) [
      | inl q ↦
          rw (e, merge_one)
            (rw (q, merge_one) (insert-All Recorded c.name (entry_of c) r (t, refl) h))
      | inr q ↦ rw (e, merge_one) (rw (q, merge_one) h)
    ]
  ]

  pub merge-Recorded :
      (name : String) (cs : List Wire) (r : Roster)
      → All (TrueClaim ms) cs
      → All Recorded r
      → All Recorded (merge name cs r)
  unfolding merge
  merge-Recorded name [] r t h = h
  merge-Recorded name (c ∷ cs) r t h =
      merge-Recorded name cs (merge_one name c r) t.1 (merge_one-Recorded name c r t.0 h)

  pub snapshot-TrueClaim : (r : Roster) → All Recorded r → All (TrueClaim ms) (snapshot r)
  unfolding snapshot
  snapshot-TrueClaim r h = map-All wire_of (TrueClaim ms) (map (λ e. e.1) r) (
      map-All (λ e. e.1) (λ x. TrueClaim ms (wire_of x)) r
        (All-map _ (λ e. TrueClaim ms (wire_of e.1)) r (λ e q. q.0) h))

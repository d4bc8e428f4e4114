-- ===== src/Membership/Network/Changes.antt =====
-- membership.rs: a member that takes in a message or leaves, in a network.
use nomad_rs.Base.{
  ℕ, zero, suc, ◌+◌, ◌%◌, ◌≤◌, ◌<◌, ◌≡◌, refl, sym, ap, subst, ◌∙◌, none, some, List, [], ◌∷◌, ◌++◌,
  All, All-map, arith, get_elem?, true, false,
}
use nomad_rs.Base.HashMap.{HashMap, get, insert, get-insert_self, insert-All}
use nomad_rs.Membership.{
  Roster, Msg, push_pull, gossip, GossipMembership, entry_of, wire_of, merge, snapshot, on_msg,
  mark_left, u64_mod, leave,
}
use nomad_rs.Rpc.Wire.{Codec}
use nomad_rs.Membership.Lookup.{get_own-merge}
use nomad_rs.Membership.Network.{
  Network, taken_in, left_by, says, TrueClaim, claims, TruthfulMember, Truthful,
}
use nomad_rs.Membership.Network.Kept.{
  Later, some-injective, kept, updated, Recorded, merge-Recorded, snapshot-TrueClaim,
}

pub Truthful-more : (m n : ℕ) (w : Network) → m ≤ n → Truthful m w → Truthful n w
Truthful-more m n w l t = record {
  members = λ k g e.
      let h = t.members k g e in
      record {
        named = h.named;
        own = h.own;
        counted = omega (arith, l, h.counted);
        roster = h.roster;
      };
  sent = t.sent;
}

-- A sent message is one of the messages.
pub nth-All :
    (P : Msg → Type 0) (k : ℕ) (xs : List Msg) (m : Msg) → get_elem? xs k ≡ some m → All P xs → P m
nth-All P k [] m e h = absurd (ground (arith, e))
nth-All P zero (x ∷ xs) m e h = subst P (ap (λ o. elim o [ none ↦ x | some y ↦ y ]) e) h.0
nth-All P (suc k) (x ∷ xs) m e h = nth-All P k xs m e h.1

module _ (n : ℕ) (w : Network) (t : Truthful n w) (g : GossipMembership)
    (known : get g.name w.members ≡ some g) where
  mine : TruthfulMember w.members n g.name g
  mine = t.members g.name g known

  -- The member with another roster that holds claims which were made.
  with_roster :
      (r : Roster) (news : List Msg)
      → get g.name r ≡ get g.name g.roster
      → All (Recorded w.members) r
      → ((ms : HashMap GossipMembership)
          → All (Recorded ms) r
          → All (λ x. All (TrueClaim ms) (claims x)) news)
      → Truthful n (record {
        members = insert g.name (record g { roster = r }) w.members;
        sent = news ++ w.sent;
      })
  with_roster r news same h said =
      let g2 : GossipMembership = record g { roster = r } in
      let later : (x : GossipMembership) → get g.name w.members ≡ some x → Later x g2 = λ x e.
        let q = some-injective (sym e ∙ known) in
        record {
          name = ap (λ y. y.name) (sym q);
          addr = ap (λ y. y.addr) (sym q);
          past = subst (λ y. y.incarnation ≤ g.incarnation) (sym q) (omega arith);
        } in
      let ms = insert g.name g2 w.members in
      let kept_r : All (Recorded ms) r =
        All-map _ _ r (λ e q. (kept w.members g.name g2 later (wire_of e.1) q.0, q.1)) h in
      updated w.members g.name g2 later n n w.sent news (omega arith) t
        (record { named = refl; own = same ∙ mine.own; counted = mine.counted; roster = kept_r })
        (said ms kept_r)

  pub taken_in-Truthful :
      (m : Msg) → All (TrueClaim w.members) (claims m) → Truthful n (taken_in g m w)
  unfolding on_msg
  taken_in-Truthful (gossip peers) h =
      with_roster (merge g.name peers g.roster) [] (get_own-merge g.name peers g.roster)
        (merge-Recorded w.members g.name peers g.roster h mine.roster) (λ ms q. tt)
  taken_in-Truthful (push_pull peers true) h =
      with_roster (merge g.name peers g.roster)
        (push_pull (snapshot (merge g.name peers g.roster)) false ∷ [])
        (get_own-merge g.name peers g.roster)
        (merge-Recorded w.members g.name peers g.roster h mine.roster)
        (λ ms q. (snapshot-TrueClaim ms _ q, tt))
  taken_in-Truthful (push_pull peers false) h =
      with_roster (merge g.name peers g.roster) [] (get_own-merge g.name peers g.roster)
        (merge-Recorded w.members g.name peers g.roster h mine.roster) (λ ms q. tt)

-- The mark of a leave, on the entry that a member has of itself.
mark_left-says :
    (g : GossipMembership) (old inc : ℕ) (r : Roster)
    → get g.name r ≡ some (entry_of (says g old))
    → 0 < inc
    → mark_left g.name inc r ≡ insert g.name (entry_of (says g inc)) r
unfolding mark_left
mark_left-says g old inc r h l = ground (arith, h, l)

pub left_by-Truthful :
    (codec : Codec Msg) (n : ℕ) (w : Network) (g : GossipMembership)
    → n + 1 < u64_mod
    → Truthful n w
    → get g.name w.members ≡ some g
    → Truthful (n + 1) (left_by codec g w)
unfolding leave
left_by-Truthful codec n w g small t known =
    updated w.members g.name h later n (n + 1) w.sent (gossip (snapshot roster) ∷ []) (omega arith)
      t
      (record {
        named = refl;
        own = own;
        counted = omega (arith, is, mine.counted);
        roster = kept_r;
      })
      (snapshot-TrueClaim ms roster kept_r, tt)
  where
    mine : TruthfulMember w.members n g.name g
    mine = t.members g.name g known

    inc : ℕ
    inc = (g.incarnation + 1) % u64_mod

    is : inc ≡ g.incarnation + 1
    is = omega (arith, small, mine.counted)

    roster : Roster
    roster = mark_left g.name inc g.roster

    h : GossipMembership
    h = record g { incarnation = inc; roster = roster }

    ms : HashMap GossipMembership
    ms = insert g.name h w.members

    marked : roster ≡ insert g.name (entry_of (says g inc)) g.roster
    marked = mark_left-says g g.incarnation inc g.roster mine.own (omega (arith, is))

    own : get g.name roster ≡ some (entry_of (says g inc))
    own = ap (get g.name) marked ∙ get-insert_self g.name (entry_of (says g inc)) g.roster

    later : (x : GossipMembership) → get g.name w.members ≡ some x → Later x h
    later x e =
        let q = some-injective (sym e ∙ known) in
        record {
          name = ap (λ y. y.name) (sym q);
          addr = ap (λ y. y.addr) (sym q);
          past = subst (λ y. y.incarnation ≤ inc) (sym q) (omega (arith, is));
        }

    kept_r : All (Recorded ms) roster
    kept_r = subst (All (Recorded ms)) (sym marked) (
        insert-All (Recorded ms) g.name (entry_of (says g inc)) g.roster
          (
            record {
              subject = h;
              known = get-insert_self g.name h w.members;
              said = refl;
              past = omega arith;
            },
            refl,
          )
          (All-map _ _ g.roster (λ e q. (kept w.members g.name h later (wire_of e.1) q.0, q.1))
            mine.roster))

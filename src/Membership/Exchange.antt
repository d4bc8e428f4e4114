-- ===== src/Membership/Exchange.antt =====
-- membership.rs: the exchange of rosters.
use nomad_rs.Base.{
  ◌≤◌, true, false, ◌≡◌, ◌≢◌, refl, sym, subst, ap, ◌∙◌, String, Option, some, List, [], ◌∷◌, arith,
  str_eq, Bool-cases, inl, inr, String_discrete,
}
use nomad_rs.Base.HashMap.{get, Distinct, insert-Distinct, insert-All}
use nomad_rs.Membership.{
  Entry, Wire, Roster, push_pull, entry_of, supersedes, merge_one, merge, snapshot, on_msg,
}
use nomad_rs.Membership.Lookup.{rank, newer, Filed, get-merge, get_own-merge, latest-snapshot}

-- A roster as a map: one entry for a name, filed under it.
pub record IsRoster (r : Roster) : Type 0 where
  pub distinct : Distinct r
  pub filed : Filed r

merge_one-IsRoster :
    (name : String) (w : Wire) (r : Roster) → IsRoster r → IsRoster (merge_one name w r)
unfolding merge_one
merge_one-IsRoster name w r h = elim (Bool-cases (str_eq w.name name)) [
  | inl e ↦ rw (e, merge_one) h
  | inr e ↦ elim (Bool-cases (supersedes w (get w.name r))) [
    | inl q ↦
        rw (e, merge_one)
          (rw (q, merge_one)
            (record {
              distinct = insert-Distinct w.name (entry_of w) r h.distinct;
              filed = insert-All _ w.name (entry_of w) r refl h.filed;
            }))
    | inr q ↦ rw (e, merge_one) (rw (q, merge_one) h)
  ]
]

pub merge-IsRoster :
    (name : String) (ws : List Wire) (r : Roster) → IsRoster r → IsRoster (merge name ws r)
unfolding merge
merge-IsRoster name [] r h = h
merge-IsRoster name (w ∷ ws) r h =
    merge-IsRoster name ws (merge_one name w r) (merge_one-IsRoster name w r h)

-- Two reports of the same incarnation are the same.
abbrev pub Consistent : Option Entry → Option Entry → Type 0
Consistent x y = rank x ≡ rank y → x ≡ y

newer-newer : (x y : Option Entry) → Consistent x y → newer x (newer y x) ≡ newer y x
newer-newer x y c = ground arith

newer_own : (x y : Option Entry) → Consistent x y → rank y ≤ rank x → newer y x ≡ x
newer_own x y c l = ground arith

-- When `a` sends its roster to `b`, `b` answers with its own and `a` takes the answer in, then both
-- hold the same entry under a name, and `b` did answer: for two members with different names whose
-- rosters have one entry for a name, filed under it, if reports of one incarnation of that name are
-- the same, and neither knows a later incarnation of the other than the other itself.
pub exchange-agree :
    (a b k : String) (ra rb : Roster)
    → a ≢ b
    → IsRoster ra
    → IsRoster rb
    → Consistent (get k ra) (get k rb)
    → rank (get a rb) ≤ rank (get a ra)
    → rank (get b ra) ≤ rank (get b rb)
    → let rb1 = (on_msg b (push_pull (snapshot ra) true) rb).0 in
      ((on_msg b (push_pull (snapshot ra) true) rb).1 ≡ some (push_pull (snapshot rb1) false))
      × (get k (on_msg a (push_pull (snapshot rb1) false) ra).0 ≡ get k rb1)
unfolding on_msg
exchange-agree a b k ra rb ne ha hb c own_a own_b = (refl, agree)
  where
    rb1 : Roster
    rb1 = merge b (snapshot ra) rb

    seen :
        (name : String) (r s : Roster)
        → IsRoster s
        → k ≢ name
        → get k (merge name (snapshot s) r) ≡ newer (get k r) (get k s)
    seen name r s h n =
        get-merge k name (snapshot s) r n ∙ latest-snapshot k (get k r) s h.distinct h.filed

    agree : get k (merge a (snapshot rb1) ra) ≡ get k rb1
    agree = elim (String_discrete k a) [
      | yes p ↦
          ap (λ n. get n (merge a (snapshot rb1) ra)) p
          ∙ get_own-merge a (snapshot rb1) ra
          ∙ ap (λ n. get n ra) (sym p)
          ∙ sym (
              seen b rb ra ha (λ q. ne (sym p ∙ q))
              ∙ newer_own (get k ra) (get k rb) c
                  (subst (λ n. rank (get n rb) ≤ rank (get n ra)) (sym p) own_a))
      | no p ↦ elim (String_discrete k b) [
        | yes q ↦
            let kept : get k rb1 ≡ get k rb =
              ap (λ n. get n rb1) q
              ∙ get_own-merge b (snapshot ra) rb
              ∙ ap (λ n. get n rb) (sym q) in
            seen a ra rb1 (merge-IsRoster b (snapshot ra) rb hb) p
            ∙ ap (newer (get k ra)) kept
            ∙ newer_own (get k rb) (get k ra) (λ e. sym (c (sym e)))
                (subst (λ n. rank (get n ra) ≤ rank (get n rb)) (sym q) own_b)
            ∙ sym kept
        | no q ↦
            seen a ra rb1 (merge-IsRoster b (snapshot ra) rb hb) p
            ∙ ap (newer (get k ra)) (seen b rb ra ha q)
            ∙ newer-newer (get k ra) (get k rb) c
            ∙ sym (seen b rb ra ha q)
      ]
    ]

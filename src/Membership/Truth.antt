-- ===== src/Membership/Truth.antt =====
-- membership.rs: what members say of each other in a network.
use nomad_rs.Base.{
  ℕ, suc, ◌+◌, ◌<◌, ◌≡◌, refl, ap, ◌∙◌, String, Option, none, some, List, [], ◌∷◌, length, All,
  arith, get_elem?,
}
use nomad_rs.Base.HashMap.{HashMap, get, insert, get-insert_self, insert-All}
use nomad_rs.Membership.{Msg, GossipMembership, alive, entry_of, u64_mod, start}
use nomad_rs.Rpc.Wire.{Codec}
use nomad_rs.Membership.Network.{
  Network, Event, starts, joins, receives, leaves, taken_in, step, steps, says, TrueClaim, claims,
  Truthful,
}
use nomad_rs.Membership.Network.Kept.{updated, Recorded, snapshot-TrueClaim}
use nomad_rs.Membership.Network.Changes.{
  Truthful-more, nth-All, taken_in-Truthful, left_by-Truthful,
}

-- A member that starts.
abbrev begun : String → String → GossipMembership
begun name addr = record {
  name = name;
  addr = addr;
  roster =
      insert name
        (record { member = record { name = name; addr = addr; status = alive }; incarnation = 0 })
        [];
  incarnation = 0;
}

started-Truthful :
    (n : ℕ) (w : Network) (name addr : String)
    → get name w.members ≡ none
    → Truthful n w
    → Truthful n (record w { members = insert name (begun name addr) w.members })
started-Truthful n w name addr absent t =
    updated w.members name h (λ x e. absurd (ground (arith, absent, e))) n n w.sent [] (omega arith)
      t
      (record {
        named = refl;
        own = get-insert_self name (entry_of (says h 0)) [];
        counted = omega arith;
        roster =
            insert-All (Recorded ms) name (entry_of (says h 0)) []
              (
                record {
                  subject = h;
                  known = get-insert_self name h w.members;
                  said = refl;
                  past = omega arith;
                },
                refl,
              )
              tt;
      })
      tt
  where
    h : GossipMembership
    h = begun name addr

    ms : HashMap GossipMembership
    ms = insert name h w.members

-- A step on the member that is found, and on none.
by_member :
    (n : ℕ) (w : Network) (name : String) (f : GossipMembership → Network) (d : Network)
    → ((g : GossipMembership) → get name w.members ≡ some g → Truthful n (f g))
    → (get name w.members ≡ none → Truthful n d)
    → Truthful n (elim (get name w.members) as (λ _. Network) [ none ↦ d | some g ↦ f g ])
by_member n w name f d found missing = go (get name w.members) refl
  where
    go :
        (o : Option GossipMembership)
        → get name w.members ≡ o
        → Truthful n (elim o as (λ _. Network) [ none ↦ d | some g ↦ f g ])
    go none e = missing e
    go (some g) e = found g e

module _ (codec : Codec Msg) (n : ℕ) (w : Network) (small : n + 1 < u64_mod)
    (t : Truthful n w) where
  later_t : Truthful (n + 1) w
  later_t = Truthful-more n (n + 1) w (omega arith) t

  -- The member that is found is filed under its own name.
  own_name :
      (name : String) (g : GossipMembership)
      → get name w.members ≡ some g
      → get g.name w.members ≡ some g
  own_name name g e = ap (λ k. get k w.members) ((t.members name g e).named) ∙ e

  received :
      (g : GossipMembership) (k : ℕ)
      → get g.name w.members ≡ some g
      → Truthful n
          (elim (get_elem? w.sent k) as (λ _. Network) [ none ↦ w | some m ↦ taken_in g m w ])
  received g k e = go (get_elem? w.sent k) refl
    where
      go :
          (o : Option Msg)
          → get_elem? w.sent k ≡ o
          → Truthful n (elim o as (λ _. Network) [ none ↦ w | some m ↦ taken_in g m w ])
      go none q = t
      go (some m) q =
          taken_in-Truthful n w t g e m
            (nth-All (λ x. All (TrueClaim w.members) (claims x)) k w.sent m q t.sent)

  step-Truthful : (e : Event) → Truthful (n + 1) (step codec e w)
  unfolding step start
  step-Truthful (starts name addr) =
      by_member (n + 1) w name _ _ (λ g e. later_t)
        (λ e. started-Truthful (n + 1) w name addr e later_t)
  step-Truthful (joins name) =
      by_member (n + 1) w name _ _
        (λ g e. record {
          members = later_t.members;
          sent = (snapshot-TrueClaim w.members g.roster (t.members name g e).roster, t.sent);
        })
        (λ e. later_t)
  step-Truthful (receives name k) =
      by_member (n + 1) w name _ _
        (λ g e. Truthful-more n (n + 1) _ (omega arith) (received g k (own_name name g e)))
        (λ e. later_t)
  step-Truthful (leaves name) =
      by_member (n + 1) w name _ _ (λ g e. left_by-Truthful codec n w g small t (own_name name g e))
        (λ e. later_t)

steps-Truthful :
    (codec : Codec Msg) (es : List Event) (n : ℕ) (w : Network)
    → n + length es < u64_mod
    → Truthful n w
    → Truthful (n + length es) (steps codec es w)
unfolding steps
steps-Truthful codec [] n w l t = Truthful-more n (n + 0) w (omega arith) t
steps-Truthful codec (e ∷ es) n w l t =
    Truthful-more (n + 1 + length es) (n + suc (length es)) _ (omega arith) (
      steps-Truthful codec es (n + 1) (step codec e w) (omega (arith, l))
        (step-Truthful codec n w (omega (arith, l)) t e))

-- In a network that starts empty, after any starts under unused names, joins, leaves and deliveries
-- of messages, each delivered in any order, any number of times or never, fewer than 2 ^ 64 in all:
-- a member's own entry is what it says of itself now; and every claim in a roster or in a message
-- was made by the member that it is about, so no claim is of a later incarnation than that
-- member's own, and claims of one incarnation are the same.
pub steps-empty-Truthful :
    (codec : Codec Msg) (es : List Event)
    → length es < u64_mod
    → Truthful (length es) (steps codec es (record { members = []; sent = [] }))
unfolding get
steps-empty-Truthful codec es l = Truthful-more (0 + length es) (length es) _ (omega arith) (
    steps-Truthful codec es 0 _ (omega (arith, l))
      (record { members = λ k g e. absurd (ground (arith, e)); sent = tt }))

-- ===== src/Membership/Network.antt =====
-- membership.rs: a network of members, whose datagrams arrive in any order, any number of times.
pub mod Kept
pub mod Changes
use nomad_rs.Base.{
  ℕ, zero, suc, ◌+◌, ◌%◌, ◌≤◌, ◌<◌, ◌≡◌, refl, sym, ap, subst, ◌∙◌, String, Option, none, some,
  List, [], ◌∷◌, ◌++◌, length, All, All-map, All-append, map, map-All, arith, get_elem?,
  String_discrete, str_eq, Bool-cases, inl, inr, if◌then◌else◌, ◌==◌, true, false, Option-cases,
}
use nomad_rs.Base.HashMap.{
  HashMap, get, insert, get-insert, get-insert_self, get-insert_ne, insert-All,
}
use nomad_rs.Membership.{
  Entry, Wire, Roster, Msg, push_pull, gossip, GossipMembership, alive, left, entry_of, wire_of,
  supersedes, merge_one, merge, snapshot, on_msg, mark_left, u64_mod, start, leave,
}
use nomad_rs.Error.{ok, err}
use nomad_rs.Rpc.Wire.{Codec}
use nomad_rs.Membership.Lookup.{get_own-merge}

-- The members by name, and every message that was ever sent.
pub record Network : Type 0 where
  pub members : HashMap GossipMembership
  pub sent : List Msg

-- A member starts under a name that no member has, joins, takes in one of the messages that were
-- ever sent, or leaves.
pub data Event : Type 0 where
  starts : String → String → Event
  joins : String → Event
  receives : String → ℕ → Event
  leaves : String → Event

abbrev pub replies : Option Msg → List Msg
replies none = []
replies (some m) = m ∷ []

-- A member after a message, and the network around it.
abbrev pub taken_in : GossipMembership → Msg → Network → Network
taken_in g m w =
    let r = on_msg g.name m g.roster in
    record {
      members = insert g.name (record g { roster = r.0 }) w.members;
      sent = replies r.1 ++ w.sent;
    }

module _ (codec : Codec Msg) where
  abbrev pub left_by : GossipMembership → Network → Network
  left_by g w =
      let after = (leave codec g).0 in
      record {
        members = insert g.name after w.members;
        sent = gossip (snapshot after.roster) ∷ w.sent;
      }

  unfoldable pub step : Event → Network → Network
  step (starts name addr) w = elim (get name w.members) [
    | some g ↦ w
    | none ↦ elim (start name (ok addr)) [
      | err x ↦ w
      | ok g ↦ record w { members = insert name g w.members }
    ]
  ]
  step (joins name) w = elim (get name w.members) [
    | none ↦ w
    | some g ↦ record w { sent = push_pull (snapshot g.roster) true ∷ w.sent }
  ]
  step (receives name k) w = elim (get name w.members) [
    | none ↦ w
    | some g ↦ elim (get_elem? w.sent k) [ none ↦ w | some m ↦ taken_in g m w ]
  ]
  step (leaves name) w = elim (get name w.members) [ none ↦ w | some g ↦ left_by g w ]

  unfoldable pub steps : List Event → Network → Network
  steps [] w = w
  steps (e ∷ es) w = steps es (step e w)

-- What a member says of itself at an incarnation: alive at first, and then that it left.
abbrev pub says : GossipMembership → ℕ → Wire
says g n = record {
  name = g.name;
  addr = g.addr;
  status = if n == 0 then alive else left;
  incarnation = n;
}

-- A claim that its subject has made, so not a later one than the subject's own.
pub record TrueClaim (ms : HashMap GossipMembership) (c : Wire) : Type 0 where
  pub subject : GossipMembership
  pub known : get c.name ms ≡ some subject
  pub said : c ≡ says subject c.incarnation
  pub past : c.incarnation ≤ subject.incarnation

abbrev pub claims : Msg → List Wire
claims (push_pull peers reply) = peers
claims (gossip peers) = peers

-- A member under its name: its own entry is what it says now, and its roster holds claims that
-- were made, each filed under its subject's name.
pub record TruthfulMember (ms : HashMap GossipMembership) (n : ℕ) (k : String)
    (g : GossipMembership) : Type 0 where
  pub named : g.name ≡ k
  pub own : get k g.roster ≡ some (entry_of (says g g.incarnation))
  pub counted : g.incarnation ≤ n
  pub roster : All (λ e. TrueClaim ms (wire_of e.1) × (e.0 ≡ e.1.member.name)) g.roster

pub record Truthful (n : ℕ) (w : Network) : Type 0 where
  pub members :
      (k : String) (g : GossipMembership)
      → get k w.members ≡ some g
      → TruthfulMember w.members n k g
  pub sent : All (λ m. All (TrueClaim w.members) (claims m)) w.sent

-- ===== src/Examples/Gossip.antt =====
-- Two members of a cluster, and what they know of a third one.
use nomad_rs.Base.{
  ℕ, ◌≡◌, ◌≢◌, refl, sym, ap, ◌∙◌, String, some, List, length, [], ◌∷◌, true, false, arith,
  String_discrete, str_eq, str_eq_refl,
}
use nomad_rs.Base.HashMap.{get}
use nomad_rs.Error.{ok}
use nomad_rs.Rpc.Wire.{Codec}
use nomad_rs.Membership.{
  Entry, Wire, Roster, Msg, push_pull, gossip, GossipMembership, alive, left, merge, snapshot,
  on_msg,
}
use nomad_rs.Membership.Network.{Event, starts, joins, receives, leaves, steps, Truthful}
use nomad_rs.Membership.Truth.{steps-empty-Truthful}
use nomad_rs.Membership.Exchange.{IsRoster, exchange-agree}
use nomad_rs.Membership.Order.{swaps, merge-Reordered}

abbrev entry_a : Entry
entry_a = record { member = record { name = "a"; addr = "1:1"; status = alive }; incarnation = 0 }

abbrev entry_b : Entry
entry_b = record { member = record { name = "b"; addr = "2:2"; status = alive }; incarnation = 3 }

abbrev entry_c : Entry
entry_c = record { member = record { name = "c"; addr = "3:3"; status = left }; incarnation = 1 }

abbrev roster_a : Roster
roster_a = ("a", entry_a) ∷ ("c", entry_c) ∷ []

abbrev roster_b : Roster
roster_b = ("b", entry_b) ∷ []

roster_a-IsRoster : IsRoster roster_a
unfolding get String_discrete
roster_a-IsRoster = record { distinct = (refl, (refl, tt)); filed = (refl, (refl, tt)) }

roster_b-IsRoster : IsRoster roster_b
unfolding get String_discrete
roster_b-IsRoster = record { distinct = (refl, tt); filed = (refl, tt) }

abbrev claim : ℕ → Wire
claim n = record { name = "c"; addr = "3:3"; status = alive; incarnation = n }

a-ne-b : ◌≢◌ {A = String} "a" "b"
unfolding String_discrete
a-ne-b e =
    let same : str_eq "a" "b" ≡ true = ap (str_eq "a") (sym e) ∙ str_eq_refl "a" in
    ground (arith, same)

exchange-agree_example :
    let rb1 = (on_msg "b" (push_pull (snapshot roster_a) true) roster_b).0 in
    ((on_msg "b" (push_pull (snapshot roster_a) true) roster_b).1
      ≡ some (push_pull (snapshot rb1) false))
    × (get "c" (on_msg "a" (push_pull (snapshot rb1) false) roster_a).0 ≡ get "c" rb1)
unfolding get String_discrete
exchange-agree_example =
    exchange-agree "a" "b" "c" roster_a roster_b a-ne-b roster_a-IsRoster roster_b-IsRoster
      (λ e. ground (arith, e)) (omega arith) (omega arith)

-- What c says of itself.
abbrev said : String → ℕ → Wire
said name n = claim n

merge-Reordered_example :
    get "c" (merge "a" (claim 2 ∷ claim 4 ∷ []) roster_a)
    ≡ get "c" (merge "a" (claim 4 ∷ claim 2 ∷ []) roster_a)
merge-Reordered_example =
    merge-Reordered said "a" "c" roster_a (swaps (claim 2) (claim 4) []) (refl, (refl, tt))

abbrev codec : Codec Msg
codec = record { to_vec = λ m. ok []; from_slice = λ bs. ok (gossip []) }

abbrev member_b : GossipMembership
member_b = record { name = "b"; addr = "2:2"; roster = roster_b; incarnation = 3 }

b-ne-a : ◌≢◌ {A = String} "b" "a"
unfolding String_discrete
b-ne-a e =
    let same : str_eq "b" "a" ≡ true = ap (str_eq "b") (sym e) ∙ str_eq_refl "b" in
    ground (arith, same)

abbrev life : List Event
life =
    starts "a" "1:1"
    ∷ starts "b" "2:2"
    ∷ joins "a"
    ∷ receives "b" 0
    ∷ receives "a" 0
    ∷ leaves "b"
    ∷ receives "a" 0
    ∷ []

steps-empty-Truthful_example :
    Truthful (length life) (steps codec life (record { members = []; sent = [] }))
steps-empty-Truthful_example = steps-empty-Truthful codec life (omega arith)

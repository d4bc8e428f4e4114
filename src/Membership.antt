-- ===== src/Membership.antt =====
-- membership.rs: the roster and its exchange. The UDP socket and the JSON codec are arguments; what
-- a call sends is in its result.
pub mod Lookup
pub mod Exchange
pub mod Order
pub mod Network
pub mod Truth
use nomad_rs.Base.{
  ℕ, zero, suc, ◌+◌, ◌%◌, Bool, true, false, not, ◌&&◌, String, Option, none, some, List, [], ◌∷◌,
  map, filter, take, length, ltb, str_eq, if◌then◌else◌,
}
use nomad_rs.Base.HashMap.{HashMap, get, insert, values}
use nomad_rs.Error.{Error, runtime, Result, ok, err, ◌>>=◌, no_peers_reachable}
use nomad_rs.Rpc.Wire.{Codec}

pub data MemberStatus : Type 0 where
  alive leaving left failed : MemberStatus

pub record Member : Type 0 where
  pub name : String
  pub addr : String
  pub status : MemberStatus

pub record Entry : Type 0 where
  pub member : Member
  pub incarnation : ℕ

pub record Wire : Type 0 where
  pub name : String
  pub addr : String
  pub status : MemberStatus
  pub incarnation : ℕ

pub data Msg : Type 0 where
  push_pull : List Wire → Bool → Msg
  gossip : List Wire → Msg

abbrev pub Roster : Type 0
Roster = HashMap Entry

pub record GossipMembership : Type 0 where
  pub name : String
  pub addr : String
  pub roster : Roster
  pub incarnation : ℕ

abbrev pub entry_of : Wire → Entry
entry_of w = record {
  member = record { name = w.name; addr = w.addr; status = w.status };
  incarnation = w.incarnation;
}

abbrev pub wire_of : Entry → Wire
wire_of e = record {
  name = e.member.name;
  addr = e.member.addr;
  status = e.member.status;
  incarnation = e.incarnation;
}

-- `is_none_or(|e| w.incarnation > e.incarnation)`.
abbrev pub supersedes : Wire → Option Entry → Bool
supersedes w none = true
supersedes w (some e) = ltb e.incarnation w.incarnation

-- One pass of the loop of `merge`.
unfoldable pub merge_one : String → Wire → Roster → Roster
merge_one self_name w r =
    if str_eq w.name self_name
    then r
    else (if supersedes w (get w.name r) then insert w.name (entry_of w) r else r)

unfoldable pub merge : String → List Wire → Roster → Roster
merge self_name [] r = r
merge self_name (w ∷ ws) r = merge self_name ws (merge_one self_name w r)

unfoldable pub snapshot : Roster → List Wire
snapshot r = map (λ e. wire_of e) (values r)

-- The roster after a message, and the answer to its sender.
unfoldable pub on_msg : String → Msg → Roster → Roster × Option Msg
on_msg name (push_pull peers reply) r =
    let merged = merge name peers r in
    (merged, if reply then some (push_pull (snapshot merged) false) else none)
on_msg name (gossip peers) r = (merge name peers r, none)

-- `unwrap_or_default` on bytes.
abbrev bytes_or_empty : Result (List ℕ) → List ℕ
bytes_or_empty (ok bytes) = bytes
bytes_or_empty (err e) = []

abbrev encode_reply : Codec Msg → Option Msg → Option (List ℕ)
encode_reply codec none = none
encode_reply codec (some m) = some (bytes_or_empty (codec.to_vec m))

-- One pass of `recv_loop` on a datagram, cut to the buffer: the answer's datagram.
unfoldable pub receive : Codec Msg → List ℕ → GossipMembership → GossipMembership × Option (List ℕ)
receive codec datagram g = elim (codec.from_slice (take 65536 datagram)) [
  | err e ↦ (g, none)
  | ok msg ↦
      let r = on_msg g.name msg g.roster in (record g { roster = r.0 }, encode_reply codec r.1)
]

-- With the address that the socket is bound to.
unfoldable pub start : String → Result String → Result GossipMembership
start name bound = do
  addr ← bound
  ok (record {
    name = name;
    addr = addr;
    roster =
        insert name
          (record { member = record { name = name; addr = addr; status = alive }; incarnation = 0 })
          [];
    incarnation = 0;
  })

unfoldable pub members : GossipMembership → List Member
members g = map (λ e. e.member) (values g.roster)

-- The addresses that a datagram reached; `reaches` says which of the sends succeed.
abbrev pub reached : (String → Bool) → List String → List String
reached reaches addrs = filter reaches addrs

abbrev is_none {ℓ} : {A : Type ℓ} → List A → Bool
is_none [] = true
is_none (x ∷ xs) = false

-- The datagram that `join` sends to each address, and its result once it has waited.
unfoldable pub join :
    Codec Msg → (String → Bool) → List String → GossipMembership → Result (List ℕ × ℕ)
join codec reaches addrs g = do
  payload ← codec.to_vec (push_pull (snapshot g.roster) true)
  elim (is_none (reached reaches addrs) && not (is_none addrs)) [
    | true ↦ err (runtime no_peers_reachable)
    | false ↦ ok (payload, length (reached reaches addrs))
  ]

abbrev pub u64_mod : ℕ
u64_mod = 18446744073709551616

-- `if let Some(e) = roster.get_mut(..) { .. }`: the own entry, marked.
unfoldable pub mark_left : String → ℕ → Roster → Roster
mark_left name inc r = elim (get name r) [
  | none ↦ r
  | some e ↦
      insert name (record { member = record e.member { status = left }; incarnation = inc }) r
]

-- The state after `leave`, the datagram, and the addresses it goes to.
unfoldable pub leave :
    Codec Msg → GossipMembership → GossipMembership × Result (List ℕ × List String)
unfolding mark_left
leave codec g =
    let inc = (g.incarnation + 1) % u64_mod in
    let roster = mark_left g.name inc g.roster in
    let others = filter (λ e. not (str_eq e.member.name g.name)) (values roster) in
    (
      record g { incarnation = inc; roster = roster },
      codec.to_vec (gossip (snapshot roster)) >>= λ payload.
          ok (payload, map (λ e. e.member.addr) others),
    )

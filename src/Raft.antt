-- ===== src/Raft.antt =====
-- raft.rs: the single-node consensus. A bootstrap node leads, and a proposal commits at once.
pub mod Replay
use nomad_rs.Base.{
  ℕ, Bool, true, false, String, Option, none, List, [], ◌∷◌, ◌++◌, length, if◌then◌else◌,
}
use nomad_rs.Error.{Error, runtime, Result, ok, err, not_leader}
use nomad_rs.State.{StateStore}
use nomad_rs.Fsm
use nomad_rs.Fsm.{Fsm, Command, apply}

pub data RaftRole : Type 0 where
  leader follower candidate : RaftRole

pub record RaftNode : Type 0 where
  pub id : String
  pub role : RaftRole
  pub log : List Command
  pub fsm : Fsm

unfoldable pub new : String → RaftNode
unfolding Fsm.new
new id = record { id = id; role = follower; log = []; fsm = Fsm.new }

unfoldable pub bootstrap : String → RaftNode
unfolding new
bootstrap id = record (new id) { role = leader }

-- `self.role() == RaftRole::Leader`.
abbrev pub is_leader : RaftNode → Bool
is_leader n = elim n.role [ leader ↦ true | follower ↦ false | candidate ↦ false ]

-- `Vec::push`, `Vec::pop`.
unfoldable pub push {ℓ} : {A : Type ℓ} → A → List A → List A
push a xs = xs ++ a ∷ []

pub pop {ℓ} : {A : Type ℓ} → List A → List A
pop [] = []
pop (x ∷ []) = []
pop (x ∷ y ∷ xs) = x ∷ pop (y ∷ xs)

-- The node after the push, and what `apply` made of the command: on an error the entry is popped.
settle : RaftNode → Fsm × Result (Unit {0}) → RaftNode × Result (Unit {0})
settle n (f, ok _) = (record n { fsm = f }, ok tt)
settle n (f, err e) = (record n { log = pop n.log; fsm = f }, err e)

unfoldable pub propose : Command → RaftNode → RaftNode × Result (Unit {0})
unfolding settle
propose c n = elim (is_leader n) [
  | false ↦ (n, err (runtime not_leader))
  | true ↦ settle (record n { log = push c n.log }) (apply c n.fsm)
]

unfoldable pub state : RaftNode → StateStore
state n = n.fsm.state

unfoldable pub committed_index : RaftNode → ℕ
committed_index n = length n.log

unfoldable pub leader_addr : RaftNode → Option String
leader_addr n = none

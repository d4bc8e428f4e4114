-- ===== src/Rpc/Commits.antt =====
-- rpc.rs: what `RpcEndpoint::commit` does.
use nomad_rs.Base.{true, false, ◌≡◌, refl, subst, sym, Option, none, some, inl, inr, Bool-cases}
use nomad_rs.Error.{Error, Result, ok, err, and_then}
use nomad_rs.Fsm.{Command}
use nomad_rs.Raft.{leader_addr, is_leader, propose}
use nomad_rs.Raft.Replay.{propose_failed}
use nomad_rs.Rpc.{RpcEndpoint, Response, not_leader, commit}

-- What `commit` does: a follower forwards, a refused command changes nothing, or it is applied.
pub data Commits (c : Command) (s : RpcEndpoint)
    : RpcEndpoint × Result (Option Response) → Type 0 where
  forwards : is_leader s.raft ≡ false → Commits c s (s, ok (some (not_leader none)))
  refuses :
      (x : Error) → is_leader s.raft ≡ true → (propose c s.raft).1 ≡ err x → Commits c s (s, err x)
  applies :
      is_leader s.raft ≡ true
      → (propose c s.raft).1 ≡ ok tt
      → Commits c s (record s { raft = (propose c s.raft).0 }, ok none)

pub commit-Commits : (c : Command) (s : RpcEndpoint) → Commits c s (commit c s)
unfolding commit leader_addr
commit-Commits c s = elim (Bool-cases (is_leader s.raft)) [
  | inl e ↦ rw (e, commit) (by_result (propose c s.raft).1 refl e)
  | inr e ↦ rw (e, commit) (forwards e)
]
  where
    by_result :
        (r : Result (Unit {0}))
        → (propose c s.raft).1 ≡ r
        → is_leader s.raft ≡ true
        → Commits c s (and_then (record s { raft = (propose c s.raft).0 }, r) (λ _ t. (t, ok none)))
    by_result (ok u) e l = applies l e
    by_result (err x) e l =
        subst (λ n. Commits c s (record s { raft = n }, err x)) (sym (propose_failed c s.raft e))
          (refuses x l e)

-- ===== src/EvalQueue/Reaping.antt =====
-- `reap_expired` of eval_queue.rs, and `nack`.
use nomad_rs.Base.{
  ℕ, Bool, false, String, ◌≡◌, refl, sym, subst, ◌∙◌, ap, str_eq_refl, str_eq_ne, Option, none,
  some, List, [], ◌∷◌, arith, Option-cases, inl, inr, length, str_eq, if◌then◌else◌,
  String_discrete,
}
use nomad_rs.Base.HashMap.{HashMap, Distinct, get, remove, get-remove_self, get-remove_ne}
use nomad_rs.Error.{Result, ok}
use nomad_rs.Jobspec.{contains}
use nomad_rs.EvalQueue.{
  EvalQueue, Inner, PendingEval, nack, nack_inner, reap_expired, reap_inner, reap, give_back,
  push_pending, expired, is_expired,
}
use nomad_rs.EvalQueue.Order.{locked_open}
use nomad_rs.EvalQueue.Delivery.{Inv, redeliver, give_back-Inv, reap-give_back}

-- A `nack` of each id in turn.
pub nack_all : List String → EvalQueue → EvalQueue
nack_all [] q = q
nack_all (id ∷ ids) q = nack_all ids (nack id q).0

nack-give_back :
    (id : String) (q : EvalQueue)
    → q.poisoned ≡ false
    → (nack id q).0 ≡ record q { inner = give_back id q.inner }
unfolding nack nack_inner
nack-give_back id q h =
    ap (λ (r : EvalQueue × Result (Unit {0})). r.0) (locked_open (nack_inner id) q h)

nack_all-reap :
    (ids : List String) (i : Inner)
    → nack_all ids (record { inner = i; poisoned = false })
      ≡ record { inner = reap ids i; poisoned = false }
unfolding nack_all
nack_all-reap [] i = unfold reap in refl
nack_all-reap (id ∷ ids) i =
    ap (nack_all ids) (nack-give_back id (record { inner = i; poisoned = false }) refl)
    ∙ (nack_all-reap ids (give_back id i)
        ∙ ap (λ x. record { inner = x; poisoned = false }) (sym (reap-give_back id ids i)))

-- On a queue that is not poisoned, `reap_expired` does what a `nack` of each id in flight whose
-- time is up does, one after the other, and returns their number.
pub reap_expired-nack_all :
    (now timeout : ℕ) (i : Inner)
    → reap_expired now timeout (record { inner = i; poisoned = false }) ≡ (
      nack_all (expired now timeout i.in_flight) (record { inner = i; poisoned = false }),
      ok (length (expired now timeout i.in_flight)),
    )
unfolding reap_expired reap_inner
reap_expired-nack_all now timeout i =
    locked_open (reap_inner now timeout) (record { inner = i; poisoned = false }) refl
    ∙ ap (λ q. (q, ok (length (expired now timeout i.in_flight))))
        (sym (nack_all-reap (expired now timeout i.in_flight) i))

in_flight-redeliver : (p : PendingEval) (i : Inner) → (redeliver p i).in_flight ≡ i.in_flight
unfolding redeliver push_pending
in_flight-redeliver p i = ground arith

get_absent :
    (id j : String) (m : HashMap PendingEval)
    → get id m ≡ none
    → get j m ≡ (if str_eq id j then none else get j m)
get_absent id j m e = elim (String_discrete id j) [
  | yes p ↦ subst (λ x. get x m ≡ (if str_eq id x then none else get x m)) p (rw (str_eq_refl id) e)
  | no p ↦ rw (str_eq_ne id j p) refl
]

pub get-give_back :
    (id j : String) (i : Inner)
    → Distinct i.in_flight
    → get j (give_back id i).in_flight ≡ (if str_eq id j then none else get j i.in_flight)
unfolding give_back redeliver
get-give_back id j i d = elim (Option-cases (get id i.in_flight)) [
  | inl e ↦ rw (e, give_back) (get_absent id j i.in_flight e)
  | inr (p, e) ↦
      rw (e, give_back)
        (rw (in_flight-redeliver p (record i { in_flight = remove id i.in_flight }))
          (ground (arith, get-remove_self id i.in_flight d, get-remove_ne id j i.in_flight)))
]

get-reap :
    (j : String) (ids : List String) (i : Inner)
    → Inv i
    → get j (reap ids i).in_flight ≡ (if contains j ids then none else get j i.in_flight)
unfolding contains
get-reap j [] i v = unfold reap in refl
get-reap j (id ∷ ids) i v = rw (reap-give_back id ids i) (
    get-reap j ids (give_back id i) (give_back-Inv id i v)
    ∙ ground (arith, get-give_back id j i v.distinct))

-- The time of the entry that the map holds for the id is up.
abbrev pub is_up : ℕ → ℕ → Option PendingEval → Bool
is_up now timeout none = false
is_up now timeout (some p) = is_expired now timeout p

pub contains-expired :
    (now timeout : ℕ) (j : String) (m : HashMap PendingEval)
    → Distinct m
    → contains j (expired now timeout m) ≡ is_up now timeout (get j m)
unfolding contains expired get
contains-expired now timeout j [] d = refl
contains-expired now timeout j ((k, p) ∷ m) d = ground (arith, contains-expired now timeout j m d.1)

pub open_reaped :
    (now timeout : ℕ) (i : Inner)
    → (reap_expired now timeout (record { inner = i; poisoned = false })).0
      ≡ record { inner = reap (expired now timeout i.in_flight) i; poisoned = false }
open_reaped now timeout i =
    ap (λ (r : EvalQueue × Result ℕ). r.0) (reap_expired-nack_all now timeout i)
    ∙ nack_all-reap (expired now timeout i.in_flight) i

-- After `reap_expired` on a queue that is not poisoned and satisfies the invariant, the in-flight
-- set holds under each id what it held before if its time is not up, and nothing if it is.
pub get-reap_expired :
    (now timeout : ℕ) (j : String) (i : Inner)
    → Inv i
    → get j (reap_expired now timeout (record { inner = i; poisoned = false })).0.inner.in_flight
      ≡ (if is_up now timeout (get j i.in_flight) then none else get j i.in_flight)
get-reap_expired now timeout j i v = rw (open_reaped now timeout i) (
    get-reap j (expired now timeout i.in_flight) i v
    ∙ ap (λ b. if b then none else get j i.in_flight)
        (contains-expired now timeout j i.in_flight v.distinct))

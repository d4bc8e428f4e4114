-- ===== src/Dispatch/Accepted.antt =====
-- dispatch.rs: which dispatches are accepted.
use nomad_rs.Base.{
  ℕ, true, ◌≡◌, ◌≢◌, refl, Option, none, some, List, ◌++◌, map, All, All-map, map-All, All-map_of,
  arith, ◌↔◌,
}
use nomad_rs.Base.HashMap.{get}
use nomad_rs.Error.{ok, each_iff, refuse-not_iff, seq_iff}
use nomad_rs.Dispatch.{
  PayloadMode, optional, required, forbidden, ParameterizedJob, DispatchRequest, contains, is_some,
  check_payload, validate_dispatch,
}

-- A payload is there when it is required, and not when it is forbidden.
pub record PayloadFits (m : PayloadMode) (p : Option (List ℕ)) : Type 0 where
  pub present : m ≡ required → p ≢ none
  pub absent : m ≡ forbidden → p ≡ none

payload_iff :
    (m : PayloadMode) (p : Option (List ℕ)) → (check_payload m p ≡ ok tt) ↔ PayloadFits m p
unfolding check_payload
payload_iff optional p =
    (λ h. record { present = λ e. ground (arith, e); absent = λ e. ground (arith, e) }, λ h. refl)
payload_iff required none = (λ h. ground (arith, h), λ h. absurd (h.present refl refl))
payload_iff required (some b) =
    (λ h. record { present = λ e q. ground (arith, q); absent = λ e. ground (arith, e) }, λ h. refl)
payload_iff forbidden none =
    (λ h. record { present = λ e. ground (arith, e); absent = λ e. refl }, λ h. refl)
payload_iff forbidden (some b) = (λ h. ground (arith, h), λ h. ground (arith, h.absent refl))

-- A dispatch is accepted exactly when every required key is in its meta, every key of its meta is
-- declared, required or optional, and its payload fits the mode: there when it is required, absent
-- when it is forbidden.
pub accepted_iff :
    (j : ParameterizedJob) (r : DispatchRequest)
    → (validate_dispatch j r ≡ ok tt) ↔ (
        All (λ k. is_some (get k r.meta) ≡ true) j.meta_required
        × All (λ e. contains (j.meta_required ++ j.meta_optional) e.0 ≡ true) r.meta
        × PayloadFits j.payload r.payload)
unfolding validate_dispatch
accepted_iff j r = (
  λ h.
      let (a, rest) = (seq_iff _ _).0 h in
      let (b, c) = (seq_iff _ _).0 rest in
      (
        All-map _ _ j.meta_required (λ k q. (refuse-not_iff _ _).0 q)
            ((each_iff _ j.meta_required).0 a),
        All-map _ _ r.meta (λ e q. (refuse-not_iff _ _).0 q)
            (All-map_of (λ e. e.0) _ r.meta ((each_iff _ (map (λ e. e.0) r.meta)).0 b)),
        (payload_iff j.payload r.payload).0 c,
      ),
  λ h. (seq_iff _ _).1 (
    (each_iff _ j.meta_required).1
        (All-map _ _ j.meta_required (λ k q. (refuse-not_iff _ _).1 q) h.0),
    (seq_iff _ _).1 (
      (each_iff _ (map (λ e. e.0) r.meta)).1
          (map-All (λ e. e.0) _ r.meta (All-map _ _ r.meta (λ e q. (refuse-not_iff _ _).1 q) h.1)),
      (payload_iff j.payload r.payload).1 h.2,
    ),
  ),
)

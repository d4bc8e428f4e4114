-- ===== src/Network/Labels.antt =====
-- network.rs: which network resources are valid.
use nomad_rs.Base.{
  false, ◌≡◌, ◌≢◌, refl, String, List, [], ◌∷◌, ◌++◌, All, All-map, All-zip, arith, ◌↔◌, is_empty,
}
use nomad_rs.Error.{ok, each_iff, refuse_iff, seq_iff}
use nomad_rs.Network.{Port, NetworkResource, seen, check_labels, lacks_value, validate_network}

-- No two ports have one label.
abbrev pub Unique : List Port → Type 0
Unique [] = Unit
Unique (p ∷ ps) = All (λ q. p.label ≢ q.label) ps × Unique ps

seen-cons :
    (l : String) (ls : List String) (x : String)
    → (seen (l ∷ ls) x ≡ false) ↔ ((l ≢ x) × (seen ls x ≡ false))
unfolding seen
seen-cons l ls x = ground arith

check_labels_iff :
    (labels : List String) (ps : List Port)
    → (check_labels labels ps ≡ ok tt) ↔ (
        All (λ p. is_empty p.label ≡ false) ps
        × All (λ p. seen labels p.label ≡ false) ps
        × Unique ps)
unfolding check_labels
check_labels_iff labels [] = (λ h. (tt, tt, tt), λ h. refl)
check_labels_iff labels (p ∷ ps) = (
  λ h.
      let (a, more) = (seq_iff _ _).0 h in
      let (b, rest) = (seq_iff _ _).0 more in
      let (named, unseen, unique) = (check_labels_iff (p.label ∷ labels) ps).0 rest in
      (
        ((refuse_iff _ _).0 a, named),
        (
          (refuse_iff _ _).0 b,
          All-map _ _ ps (λ q s. ((seen-cons p.label labels q.label).0 s).1) unseen,
        ),
        (All-map _ _ ps (λ q s. ((seen-cons p.label labels q.label).0 s).0) unseen, unique),
      ),
  λ h. (seq_iff _ _).1 (
    (refuse_iff _ _).1 h.0.0,
    (seq_iff _ _).1 (
      (refuse_iff _ _).1 h.1.0,
      (check_labels_iff (p.label ∷ labels) ps).1 (
        h.0.1,
        All-zip _ _ _ ps (λ q n s. (seen-cons p.label labels q.label).1 (n, s)) h.2.0 h.1.1,
        h.2.1,
      ),
    ),
  ),
)

seen-nothing : (ps : List Port) → All (λ p. seen [] p.label ≡ false) ps
unfolding seen
seen-nothing [] = tt
seen-nothing (p ∷ ps) = (refl, seen-nothing ps)

-- A network resource is valid exactly when every port has a label, no two ports, reserved or
-- dynamic, have the same label, and every reserved port has a static value that is not 0.
pub valid_iff :
    (n : NetworkResource)
    → (validate_network n ≡ ok tt) ↔ (
        All (λ p. is_empty p.label ≡ false) (n.reserved_ports ++ n.dynamic_ports)
        × Unique (n.reserved_ports ++ n.dynamic_ports)
        × All (λ p. lacks_value p.static_value ≡ false) n.reserved_ports)
unfolding validate_network
valid_iff n = (
  λ h.
      let (a, b) = (seq_iff _ _).0 h in
      let (named, _, unique) = (check_labels_iff [] (n.reserved_ports ++ n.dynamic_ports)).0 a in
      (
        named,
        unique,
        All-map _ _ n.reserved_ports (λ p q. (refuse_iff _ _).0 q)
            ((each_iff _ n.reserved_ports).0 b),
      ),
  λ h. (seq_iff _ _).1 (
    (check_labels_iff [] (n.reserved_ports ++ n.dynamic_ports)).1
        (h.0, seen-nothing (n.reserved_ports ++ n.dynamic_ports), h.1),
    (each_iff _ n.reserved_ports).1
        (All-map _ _ n.reserved_ports (λ p q. (refuse_iff _ _).1 q) h.2),
  ),
)

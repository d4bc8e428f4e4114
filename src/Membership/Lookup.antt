-- ===== src/Membership/Lookup.antt =====
-- membership.rs: what a roster holds after a merge, name by name.
use nomad_rs.Base.{
  ℕ, suc, ◌≤◌, ◌≡◌, ◌≢◌, refl, sym, ap, ◌∙◌, String, Option, none, some, List, [], ◌∷◌, All, arith,
  ltb, if◌then◌else◌, str_eq, str_eq_refl, Bool-cases, inl, inr, String_discrete,
}
use nomad_rs.Base.HashMap.{get, Distinct, get-insert, get-insert_ne}
use nomad_rs.Membership.{Entry, Wire, Roster, entry_of, merge_one, merge, snapshot}

-- 0 for no entry, and one more than the incarnation for an entry.
abbrev pub rank : Option Entry → ℕ
rank none = 0
rank (some e) = suc e.incarnation

-- The later of two reports, the first one on a tie.
abbrev pub newer : Option Entry → Option Entry → Option Entry
newer old new = if ltb (rank old) (rank new) then new else old

-- An entry is filed under its member's name.
abbrev pub Filed : Roster → Type 0
Filed r = All (λ e. e.0 ≡ e.1.member.name) r

-- A claim about the member itself changes nothing.
merge_one_self : (name : String) (w : Wire) (r : Roster) → w.name ≡ name → merge_one name w r ≡ r
unfolding merge_one
merge_one_self name w r e = rw e (rw (str_eq_refl name) refl)

get-merge_one :
    (k name : String) (w : Wire) (r : Roster)
    → k ≢ name
    → get k (merge_one name w r)
      ≡ (if str_eq w.name k then newer (get k r) (some (entry_of w)) else get k r)
unfolding merge_one
get-merge_one k name w r h = ground (arith, get-insert w.name k (entry_of w) r)

get_own-merge_one :
    (name : String) (w : Wire) (r : Roster) → get name (merge_one name w r) ≡ get name r
unfolding merge_one
get_own-merge_one name w r = ground (arith, get-insert_ne w.name name (entry_of w) r)

-- The claims about one name, folded in order.
unfoldable pub latest : String → Option Entry → List Wire → Option Entry
latest k o [] = o
latest k o (w ∷ ws) = latest k (if str_eq w.name k then newer o (some (entry_of w)) else o) ws

pub get-merge :
    (k name : String) (ws : List Wire) (r : Roster)
    → k ≢ name
    → get k (merge name ws r) ≡ latest k (get k r) ws
unfolding merge latest
get-merge k name [] r h = refl
get-merge k name (w ∷ ws) r h =
    get-merge k name ws (merge_one name w r) h
    ∙ ap (λ o. latest k o ws) (get-merge_one k name w r h)

-- No message changes a member's own entry.
pub get_own-merge :
    (name : String) (ws : List Wire) (r : Roster) → get name (merge name ws r) ≡ get name r
unfolding merge
get_own-merge name [] r = refl
get_own-merge name (w ∷ ws) r =
    get_own-merge name ws (merge_one name w r) ∙ get_own-merge_one name w r

newer_le : (o n : Option Entry) → rank o ≤ rank (newer o n)
newer_le o n = ground arith

latest_le : (k : String) (ws : List Wire) (o : Option Entry) → rank o ≤ rank (latest k o ws)
unfolding latest
latest_le k [] o = omega arith
latest_le k (w ∷ ws) o = elim (Bool-cases (str_eq w.name k)) [
  | inl e ↦
      rw (e, latest)
        (omega
          (arith, newer_le o (some (entry_of w)), latest_le k ws (newer o (some (entry_of w)))))
  | inr e ↦ rw (e, latest) (latest_le k ws o)
]

-- Merging any claims into a roster never lowers the incarnation that it holds for a name, drops no
-- entry, and leaves the member's own entry as it was.
pub rank-merge :
    (k name : String) (ws : List Wire) (r : Roster)
    → (rank (get k r) ≤ rank (get k (merge name ws r))) × (get name (merge name ws r) ≡ get name r)
rank-merge k name ws r = elim (String_discrete k name) [
  | yes e ↦ (rw e (rw (get_own-merge name ws r) (omega arith)), get_own-merge name ws r)
  | no h ↦ (rw (get-merge k name ws r h) (latest_le k ws (get k r)), get_own-merge name ws r)
]

newer-none : (o : Option Entry) → newer o none ≡ o
newer-none o = ground arith

-- The claims of a whole roster, folded.
pub latest-snapshot :
    (k : String) (o : Option Entry) (r : Roster)
    → Distinct r
    → Filed r
    → latest k o (snapshot r) ≡ newer o (get k r)
unfolding latest snapshot get
latest-snapshot k o [] d f = sym (newer-none o)
latest-snapshot k o ((j, e) ∷ m) d f = elim (String_discrete j k) [
  | yes p ↦ ground (
    arith,
    p,
    f.0,
    d.0,
    latest-snapshot k (newer o (some e)) m d.1 f.1,
    newer-none (newer o (some e)),
  )
  | no p ↦ ground (arith, p, f.0, latest-snapshot k o m d.1 f.1)
]

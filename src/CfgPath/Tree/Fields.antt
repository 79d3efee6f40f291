-- ===== src/CfgPath/Tree/Fields.antt =====
-- Setting a value under a path of keys, and reading the tree afterwards.
use mini_router.Prelude.{
  ◌≡◌, refl, Bool, true, false, not, ◌&&◌, Option, none, some, List, [], ◌∷◌, ◌++◌, if◌then◌else◌,
  arith, Bool-cases, inl, inr, ap, ◌∙◌, sym, subst,
}
use mini_router.Prelude.Bytes.{Bytes}
use mini_router.Strings.{same_bytes, same_bytes_refl, same_bytes_eq}
use mini_router.CfgPath.Syntax.{PathStep, key, sel}
use mini_router.CfgPath.Tree.{
  Node, scalar, mapping, sequence, Entries, no_entries, entry, Edited, ok, err, ◌>>=◌, or_else,
  find_entry, no_such_key,
}
use mini_router.CfgPath.Tree.Edit.{
  is_some, set_entry, entry_or_error, step_into, node_at, below_entry, change_below, edit_at,
  set_last, set, apply_op,
}

find_entry-set_entry :
    (k : Bytes) (m : Node) (fs : Entries) → find_entry k (set_entry k m fs) ≡ some m
unfolding find_entry set_entry
find_entry-set_entry k m no_entries = ground (arith, same_bytes_refl k)
find_entry-set_entry k m (entry j n fs) =
    elim (Bool-cases (same_bytes j k && not (is_some (find_entry k fs)))) [
      | inl e ↦ rw (set_entry, e) (last (find_entry k fs) (same_bytes j k) e)
      | inr e ↦
          rw (set_entry, e)
            (ap (λ o. or_else o (if same_bytes j k then some n else none))
              (find_entry-set_entry k m fs))
    ]
  where
    last :
        (o : Option Node) (b : Bool)
        → b && not (is_some o) ≡ true
        → or_else o (if b then some m else none) ≡ some m
    last none b e = ground arith
    last (some x) b e = ground arith

find_entry-set_entry_other :
    (k j : Bytes) (m : Node) (fs : Entries)
    → same_bytes k j ≡ false
    → find_entry j (set_entry k m fs) ≡ find_entry j fs
unfolding find_entry set_entry
find_entry-set_entry_other k j m no_entries h = rw h refl
find_entry-set_entry_other k j m (entry i n fs) h =
    elim (Bool-cases (same_bytes i k && not (is_some (find_entry k fs)))) [
      | inl e ↦
          let same : i ≡ k = same_bytes_eq i k (ground arith) in
          let other : same_bytes i j ≡ false = subst (λ x. same_bytes x j ≡ false) (sym same) h in
          rw (set_entry, e, other) refl
      | inr e ↦
          rw (set_entry, e)
            (ap (λ o. or_else o (if same_bytes i j then some n else none))
              (find_entry-set_entry_other k j m fs h))
    ]

-- a path without selectors
abbrev pub AreKeys : List PathStep → Type 0
AreKeys [] = Unit
AreKeys (key k ∷ steps) = AreKeys steps
AreKeys (sel k v ∷ steps) = ⊥

-- what a change below a key does: it is made to the child, which may be new
below_key :
    (create : Bool) (k : Bytes) (f : Node → Edited Node) (n n' : Node)
    → change_below create (key k) f n ≡ ok n'
    → (fs : Entries) × (m : Node) × (n ≡ mapping fs)
      × (below_entry create (find_entry k fs) f ≡ ok m)
      × (n' ≡ mapping (set_entry k m fs))
unfolding change_below
below_key create k f (scalar v) n' e = ground arith
below_key create k f (sequence l) n' e = ground arith
below_key create k f (mapping fs) n' e = below (below_entry create (find_entry k fs) f) refl e
  where
    below :
        (r : Edited Node)
        → below_entry create (find_entry k fs) f ≡ r
        → (r >>= λ m. ok (mapping (set_entry k m fs))) ≡ ok n'
        → (gs : Entries) × (m : Node) × (mapping fs ≡ mapping gs)
          × (below_entry create (find_entry k gs) f ≡ ok m)
          × (n' ≡ mapping (set_entry k m gs))
    below (ok m) eq e = (fs, m, refl, eq, cc)
    below (err x) eq e = ground arith

last_key :
    (v : Node) (k : Bytes) (n n' : Node)
    → set_last v (key k) n ≡ ok n'
    → (fs : Entries) × (n ≡ mapping fs) × (n' ≡ mapping (set_entry k v fs))
unfolding set_last
last_key v k (scalar w) n' e = ground arith
last_key v k (sequence l) n' e = ground arith
last_key v k (mapping fs) n' e = (fs, refl, cc)

node_at-set_entry :
    (k : Bytes) (steps : List PathStep) (m : Node) (fs : Entries)
    → node_at (key k ∷ steps) (mapping (set_entry k m fs)) ≡ node_at steps m
unfolding node_at step_into
node_at-set_entry k steps m fs =
    ap (λ o. entry_or_error o >>= node_at steps) (find_entry-set_entry k m fs)

-- the child that is changed
abbrev child : Option Node → Node
child none = mapping no_entries
child (some n) = n

below-child :
    (o : Option Node) (f : Node → Edited Node) (m : Node)
    → below_entry true o f ≡ ok m
    → f (child o) ≡ ok m
below-child none f m e = e
below-child (some n) f m e = e

-- A value that was set under a path of keys is found there.
pub apply_op-node_at :
    (v : Node) (steps : List PathStep) (root root' : Node)
    → AreKeys steps
    → apply_op (set v) steps root ≡ ok root'
    → node_at steps root' ≡ ok v
unfolding apply_op edit_at node_at
apply_op-node_at v [] root root' keys e = ground arith
apply_op-node_at v (sel k w ∷ steps) root root' keys e = absurd keys
apply_op-node_at v (key k ∷ []) root root' keys e =
    let (fs, from, to) = last_key v k root root' e in rw to (node_at-set_entry k [] v fs)
apply_op-node_at v (key k ∷ st ∷ steps) root root' keys e =
    let (fs, m, from, below, to) =
      below_key true k (edit_at true (set_last v) (st ∷ steps)) root root' e in
    rw to (
      node_at-set_entry k (st ∷ steps) m fs
      ∙ apply_op-node_at v (st ∷ steps) (child (find_entry k fs)) m keys
          (below-child (find_entry k fs) (edit_at true (set_last v) (st ∷ steps)) m below))

-- what an edit that begins with a key does to the root
edited_key :
    (v : Node) (k : Bytes) (steps : List PathStep) (root root' : Node)
    → edit_at true (set_last v) (key k ∷ steps) root ≡ ok root'
    → (fs : Entries) × (m : Node) × (root ≡ mapping fs) × (root' ≡ mapping (set_entry k m fs))
unfolding edit_at
edited_key v k [] root root' e = let (fs, from, to) = last_key v k root root' e in (fs, v, from, to)
edited_key v k (st ∷ steps) root root' e =
    let (fs, m, from, below, to) =
      below_key true k (edit_at true (set_last v) (st ∷ steps)) root root' e in
    (fs, m, from, to)

node_at-missing :
    (k : Bytes) (steps : List PathStep)
    → node_at (key k ∷ steps) (mapping no_entries) ≡ err no_such_key
unfolding node_at step_into find_entry
node_at-missing k steps = refl

node_at-key :
    (k : Bytes) (steps : List PathStep) (fs : Entries)
    → node_at (key k ∷ steps) (mapping fs) ≡ (entry_or_error (find_entry k fs) >>= node_at steps)
unfolding node_at step_into
node_at-key k steps fs = refl

-- what is left of a path of keys is a path
edit_at-longer :
    (v : Node) (c a : Bytes) (p s : List PathStep) (root : Node)
    → edit_at true (set_last v) (key c ∷ (p ++ (key a ∷ s))) root
      ≡ change_below true (key c) (edit_at true (set_last v) (p ++ (key a ∷ s))) root
unfolding edit_at
edit_at-longer v c a [] s root = refl
edit_at-longer v c a (st ∷ p) s root = refl

node_at-child :
    (b : Bytes) (p t : List PathStep) (o : Option Node)
    → AreKeys p
    → node_at (p ++ (key b ∷ t)) (child o) ≡ (entry_or_error o >>= node_at (p ++ (key b ∷ t)))
node_at-child b [] t none keys = node_at-missing b t
node_at-child b (key c ∷ p) t none keys = node_at-missing c (p ++ (key b ∷ t))
node_at-child b (sel c w ∷ p) t none keys = absurd keys
node_at-child b p t (some n) keys = refl

-- Setting a value leaves what stands under another key as it was: the paths share the keys `p`, and
-- then one goes to `a` and the other to `b`.
pub apply_op-other_key :
    (v : Node) (p s t : List PathStep) (a b : Bytes) (root root' : Node)
    → AreKeys p
    → same_bytes a b ≡ false
    → apply_op (set v) (p ++ (key a ∷ s)) root ≡ ok root'
    → node_at (p ++ (key b ∷ t)) root' ≡ node_at (p ++ (key b ∷ t)) root
unfolding apply_op
apply_op-other_key v [] s t a b root root' keys other e =
    let (fs, m, from, to) = edited_key v a s root root' e in
    ap (node_at (key b ∷ t)) to
    ∙ node_at-key b t (set_entry a m fs)
    ∙ ap (λ o. entry_or_error o >>= node_at t) (find_entry-set_entry_other a b m fs other)
    ∙ sym (node_at-key b t fs)
    ∙ sym (ap (node_at (key b ∷ t)) from)
apply_op-other_key v (sel k w ∷ p) s t a b root root' keys other e = absurd keys
apply_op-other_key v (key c ∷ p) s t a b root root' keys other e =
    let q = p ++ (key b ∷ t) in
    let e' = sym (edit_at-longer v c a p s root) ∙ e in
    let (fs, m, from, below, to) =
      below_key true c (edit_at true (set_last v) (p ++ (key a ∷ s))) root root' e' in
    let under =
      below-child (find_entry c fs) (edit_at true (set_last v) (p ++ (key a ∷ s))) m below in
    ap (node_at (key c ∷ q)) to
    ∙ node_at-set_entry c q m fs
    ∙ apply_op-other_key v p s t a b (child (find_entry c fs)) m keys other under
    ∙ node_at-child b p t (find_entry c fs) keys
    ∙ sym (node_at-key c q fs)
    ∙ sym (ap (node_at (key c ∷ q)) from)

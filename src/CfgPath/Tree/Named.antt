-- ===== src/CfgPath/Tree/Named.antt =====
-- Lists of named items: an item that is added keeps the list one of named items, and is found.
use mini_router.Prelude.{
  ℕ, ◌≡◌, refl, Bool, true, false, ◌&&◌, Option, none, some, List, [], ◌∷◌, if◌then◌else◌, arith,
  Bool-cases, inl, inr, ap, ◌∙◌, sym, subst,
}
use mini_router.Prelude.Bytes.{Bytes}
use mini_router.Strings.{same_bytes_refl}
use mini_router.CfgPath.Tree.{
  Node, mapping, sequence, Items, no_items, item, Entries, ok, err, has_bytes, is_new, and_seen,
  id_of, identifies, id_keys, first_id, is_mapping, seq_key, same_value, next_index, find_id,
  find_by, find_item, is_empty, count_items, needs_key, exists_already,
}
use mini_router.CfgPath.Tree.Edit.{is_some, add_last, add_named, add_item}

and_true : (b c : Bool) → b && c ≡ true → (b ≡ true) × (c ≡ true)
and_true b c h = ground arith

absent_parts :
    (b : Bool) (o : Option ℕ)
    → (if b then some 0 else next_index o) ≡ none
    → (b ≡ false) × (o ≡ none)
absent_parts true o e = ground arith
absent_parts false none e = (refl, refl)
absent_parts false (some i) e = ground arith

unseen :
    (o : Option Bytes) (nm : Bytes) (seen : List Bytes)
    → same_value o nm ≡ false
    → has_bytes nm seen ≡ false
    → has_bytes nm (and_seen o seen) ≡ false
unseen none nm seen differs new = new
unseen (some w) nm seen differs new = rw (differs, new) refl

identifies-add_last :
    (k nm : Bytes) (seen : List Bytes) (v : Node) (l : Items)
    → id_of k v ≡ some nm
    → identifies k seen l ≡ true
    → has_bytes nm seen ≡ false
    → find_id k nm l ≡ none
    → identifies k seen (add_last v l) ≡ true
unfolding identifies add_last find_id
identifies-add_last k nm seen v no_items id h new absent = rw (identifies, id, new) refl
identifies-add_last k nm seen v (item n l) id h new absent =
    let (here, rest) =
      and_true (is_new (id_of k n) seen) (identifies k (and_seen (id_of k n) seen) l) h in
    let (differs, later) = absent_parts (same_value (id_of k n) nm) (find_id k nm l) absent in
    rw (identifies, here)
      (identifies-add_last k nm (and_seen (id_of k n) seen) v l id rest
        (unseen (id_of k n) nm seen differs new) later)

unidentified-add_last :
    (k : Bytes) (seen : List Bytes) (v : Node) (l : Items)
    → identifies k seen l ≡ false
    → identifies k seen (add_last v l) ≡ false
unfolding identifies add_last
unidentified-add_last k seen v no_items h = ground arith
unidentified-add_last k seen v (item n l) h =
    ground (arith, unidentified-add_last k (and_seen (id_of k n) seen) v l)

find_id-add_last :
    (k nm : Bytes) (v : Node) (l : Items)
    → id_of k v ≡ some nm
    → find_id k nm l ≡ none
    → find_id k nm (add_last v l) ≡ some (count_items l)
unfolding find_id add_last
find_id-add_last k nm v no_items id absent = rw (find_id, id, same_bytes_refl nm) refl
find_id-add_last k nm v (item n l) id absent =
    let (differs, later) = absent_parts (same_value (id_of k n) nm) (find_id k nm l) absent in
    rw (find_id, differs) (ap next_index (find_id-add_last k nm v l id later))

first_id-add_last :
    (ks : List Bytes) (k nm : Bytes) (v : Node) (l : Items)
    → first_id ks l ≡ some k
    → id_of k v ≡ some nm
    → find_id k nm l ≡ none
    → first_id ks (add_last v l) ≡ some k
unfolding first_id
first_id-add_last [] k nm v l e id absent = ground arith
first_id-add_last (j ∷ ks) k nm v l e id absent = elim (Bool-cases (identifies j [] l)) [
  | inl i ↦
      let same : some j ≡ some k = rw (first_id, i) at e in
      rw (first_id, identified (some_eq j k same) i) same
  | inr i ↦
      let e' : first_id ks l ≡ some k = rw (first_id, i) at e in
      rw (first_id, unidentified-add_last j [] v l i) (first_id-add_last ks k nm v l e' id absent)
]
  where
    some_eq : (a b : Bytes) → some a ≡ some b → a ≡ b
    some_eq a b e = cc

    identified : j ≡ k → identifies j [] l ≡ true → identifies j [] (add_last v l) ≡ true
    identified same i =
        subst (λ x. identifies x [] (add_last v l) ≡ true) (sym same)
          (identifies-add_last k nm [] v l id (subst (λ x. identifies x [] l ≡ true) same i) refl
            absent)

seq_key-add_last :
    (k nm : Bytes) (v : Node) (l : Items)
    → seq_key l ≡ some k
    → id_of k v ≡ some nm
    → find_id k nm l ≡ none
    → seq_key (add_last v l) ≡ some k
unfolding seq_key add_last
seq_key-add_last k nm v no_items e id absent = ground arith
seq_key-add_last k nm v (item n l) e id absent = elim (Bool-cases (is_mapping n)) [
  | inl m ↦
      let e' : first_id id_keys (item n l) ≡ some k = rw (seq_key, m) at e in
      rw (seq_key, m) (first_id-add_last id_keys k nm v (item n l) e' id absent)
  | inr m ↦ absurd (none_some (rw (seq_key, m) at e))
]
  where
    none_some : none ≡ some k → ⊥
    none_some e = cc

-- the tests of addItem on a new name
named_parts :
    (k : Bytes) (id : Option Bytes) (l : Items) (v list : Node)
    → add_named (some k) id l v ≡ ok list
    → (nm : Bytes) × (id ≡ some nm) × (find_item k nm l ≡ none) × (list ≡ sequence (add_last v l))
named_parts k none l v list e = ground arith
named_parts k (some nm) l v list e =
    let (absent, same) = tests (is_empty nm) (find_item k nm l) e in (nm, refl, absent, same)
  where
    tests :
        (b : Bool) (o : Option ℕ)
        → (if b
            then err needs_key
            else if is_some o
            then err exists_already
            else ok (sequence (add_last v l)))
          ≡ ok list
        → (o ≡ none) × (list ≡ sequence (add_last v l))
    tests true o e = ground arith
    tests false (some i) e = ground arith
    tests false none e = (refl, cc)

find_item-seq_key :
    (k j nm : Bytes) (l : Items) → seq_key l ≡ some k → j ≡ k → find_item j nm l ≡ find_id k nm l
unfolding find_item
find_item-seq_key k j nm l e same = elim (Bool-cases (is_empty j)) [
  | inl b ↦ rw (find_item, b) (ap (λ o. find_by o nm l) e)
  | inr b ↦ rw (find_item, b) (ap (λ x. find_by (some x) nm l) same)
]

find_item_plain :
    (k nm : Bytes) (l : Items) → seq_key l ≡ some k → find_item [] nm l ≡ find_id k nm l
unfolding find_item
find_item_plain k nm l e = ap (λ o. find_by o nm l) e

-- A mapping that is added to a list of named items had a name that no item of the list has: the list
-- stays one of named items, with the same key, and its name selects the new item, the last one.
pub add_item-find_item :
    (l : Items) (fs : Entries) (k : Bytes) (list : Node)
    → seq_key l ≡ some k
    → add_item (sequence l) (mapping fs) ≡ ok list
    → (nm : Bytes) × (id_of k (mapping fs) ≡ some nm)
      × (list ≡ sequence (add_last (mapping fs) l))
      × (find_item [] nm l ≡ none)
      × (seq_key (add_last (mapping fs) l) ≡ some k)
      × (find_item [] nm (add_last (mapping fs) l) ≡ some (count_items l))
unfolding add_item
add_item-find_item l fs k list e added =
    let added' : add_named (some k) (id_of k (mapping fs)) l (mapping fs) ≡ ok list =
      rw (add_item, e) at added in
    let (nm, id, absent, same) = named_parts k (id_of k (mapping fs)) l (mapping fs) list added' in
    let absent' = sym (find_item-seq_key k k nm l e refl) ∙ absent in
    let named = seq_key-add_last k nm (mapping fs) l e id absent' in
    (
      nm,
      id,
      same,
      find_item_plain k nm l e ∙ absent',
      named,
      find_item_plain k nm (add_last (mapping fs) l) named
          ∙ find_id-add_last k nm (mapping fs) l id absent',
    )

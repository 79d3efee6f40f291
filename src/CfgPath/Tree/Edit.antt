-- ===== src/CfgPath/Tree/Edit.antt =====
-- The edits of the tree (mr/cfgpath.go nodeAt, applyOp, addItem).
use mini_router.Prelude.{
  ℕ, zero, suc, Bool, true, false, not, ◌&&◌, Option, none, some, List, [], ◌∷◌, if◌then◌else◌,
}
use mini_router.Prelude.Bytes.{Bytes, codes}
use mini_router.Strings.{same_bytes}
use mini_router.CfgPath.Syntax.{PathStep, key, sel}
use mini_router.CfgPath.Tree.{
  Edited, ◌>>=◌, find_entry, map_index, id_of, seq_key, find_value, is_empty, find_item, scalar,
  mapping, sequence, no_items, item, no_entries, entry, not_a_list, has_no_keys, no_such_item,
  no_such_key, needs_key, exists_already, in_the_list, no_path, ok, err, Node, Items, Entries,
}

unfoldable pub nth_item : ℕ → Items → Option Node
nth_item i no_items = none
nth_item zero (item n l) = some n
nth_item (suc i) (item n l) = nth_item i l

unfoldable pub set_item : ℕ → Node → Items → Items
set_item i m no_items = no_items
set_item zero m (item n l) = item m l
set_item (suc i) m (item n l) = item n (set_item i m l)

unfoldable pub drop_item : ℕ → Items → Items
drop_item i no_items = no_items
drop_item zero (item n l) = l
drop_item (suc i) (item n l) = item n (drop_item i l)

unfoldable pub add_last : Node → Items → Items
add_last m no_items = item m no_items
add_last m (item n l) = item n (add_last m l)

abbrev pub is_some {ℓ} : {A : Type ℓ} → Option A → Bool
is_some none = false
is_some (some a) = true

-- the value of the last entry of the key is replaced, or an entry is appended
unfoldable pub set_entry : Bytes → Node → Entries → Entries
set_entry k m no_entries = entry k m no_entries
set_entry k m (entry j n fs) =
    let rest = entry j n (set_entry k m fs) in
    if same_bytes j k && not (is_some (find_entry k fs)) then entry j m fs else rest

-- the first entry of the key goes; none where there is none
abbrev pub with_entry : Bytes → Node → Option Entries → Option Entries
with_entry j n none = none
with_entry j n (some fs) = some (entry j n fs)

unfoldable pub drop_entry : Bytes → Entries → Option Entries
drop_entry k no_entries = none
drop_entry k (entry j n fs) =
    let rest = with_entry j n (drop_entry k fs) in if same_bytes j k then some fs else rest

abbrev pub item_at : Option ℕ → Items → Edited Node
item_at none l = err no_such_item
item_at (some i) l = elim (nth_item i l) [ none ↦ err no_such_item | some n ↦ ok n ]

-- a round of nodeAt, without adding keys
abbrev pub entry_or_error : Option Node → Edited Node
entry_or_error none = err no_such_key
entry_or_error (some n) = ok n

unfoldable pub step_into : PathStep → Node → Edited Node
step_into (key k) (mapping fs) = entry_or_error (find_entry k fs)
step_into (key k) (scalar v) = err has_no_keys
step_into (key k) (sequence l) = err has_no_keys
step_into (sel k v) (sequence l) = item_at (find_item k v l) l
step_into (sel k v) (scalar w) = err not_a_list
step_into (sel k v) (mapping fs) = err not_a_list

-- nodeAt, without adding keys
unfoldable pub node_at : List PathStep → Node → Edited Node
node_at [] n = ok n
node_at (st ∷ steps) n = step_into st n >>= node_at steps

-- a round of nodeAt, where the tree is changed below; missing keys are added as empty mappings when
-- `create` is set
abbrev pub below_entry : Bool → Option Node → (Node → Edited Node) → Edited Node
below_entry true none f = f (mapping no_entries)
below_entry false none f = err no_such_key
below_entry create (some n) f = f n

abbrev pub below_item : Option ℕ → Items → (Node → Edited Node) → Edited Node
below_item none l f = err no_such_item
below_item (some i) l f = item_at (some i) l >>= f >>= λ n. ok (sequence (set_item i n l))

unfoldable pub change_below : Bool → PathStep → (Node → Edited Node) → Node → Edited Node
change_below create (key k) f (mapping fs) =
    below_entry create (find_entry k fs) f >>= λ n. ok (mapping (set_entry k n fs))
change_below create (key k) f (scalar v) = err has_no_keys
change_below create (key k) f (sequence l) = err has_no_keys
change_below create (sel k v) f (sequence l) = below_item (find_item k v l) l f
change_below create (sel k v) f (scalar w) = err not_a_list
change_below create (sel k v) f (mapping fs) = err not_a_list

-- nodeAt on the steps but the last, and the change of the parent by the last one
unfoldable pub edit_at : Bool → (PathStep → Node → Edited Node) → List PathStep → Node → Edited Node
edit_at create f [] n = err no_path
edit_at create f (st ∷ []) n = f st n
edit_at create f (st ∷ st' ∷ steps) n = change_below create st (edit_at create f (st' ∷ steps)) n

-- the name of a new mapping is there and new, where the list is one of named items
abbrev pub name_key : Option Bytes → Items → Node → Option Bytes
name_key (some k) l v = some k
name_key none no_items v =
    if is_some (map_index (codes "name") v) then some (codes "name") else none
name_key none (item n l) v = none

abbrev pub add_named : Option Bytes → Option Bytes → Items → Node → Edited Node
add_named none id l v = ok (sequence (add_last v l))
add_named (some k) none l v = err needs_key
add_named (some k) (some nm) l v =
    if is_empty nm
    then err needs_key
    else if is_some (find_item k nm l)
    then err exists_already
    else ok (sequence (add_last v l))

abbrev pub id_under : Option Bytes → Node → Option Bytes
id_under none v = none
id_under (some k) v = id_of k v

-- addItem
unfoldable pub add_item : Node → Node → Edited Node
add_item (sequence l) (mapping fs) =
    let k = name_key (seq_key l) l (mapping fs) in
    add_named k (id_under k (mapping fs)) l (mapping fs)
add_item (sequence l) (scalar v) =
    if is_some (find_value v l) then err in_the_list else ok (sequence (add_last (scalar v) l))
add_item (sequence l) (sequence m) = ok (sequence (add_last (sequence m) l))
add_item (scalar w) v = err not_a_list
add_item (mapping fs) v = err not_a_list

-- the last step of set
unfoldable pub set_last : Node → PathStep → Node → Edited Node
set_last v (key k) (mapping fs) = ok (mapping (set_entry k v fs))
set_last v (key k) (scalar w) = err has_no_keys
set_last v (key k) (sequence l) = err has_no_keys
set_last v (sel k w) n = change_below true (sel k w) (λ old. ok v) n

-- the last step of add, which makes a missing list
abbrev pub list_or_new : Option Node → Node
list_or_new none = sequence no_items
list_or_new (some n) = n

unfoldable pub add_last_step : Node → PathStep → Node → Edited Node
add_last_step v (key k) (mapping fs) =
    add_item (list_or_new (find_entry k fs)) v >>= λ n. ok (mapping (set_entry k n fs))
add_last_step v (key k) (scalar w) = err has_no_keys
add_last_step v (key k) (sequence l) = err has_no_keys
add_last_step v (sel k w) n = change_below true (sel k w) (λ old. add_item old v) n

abbrev pub entries_or_error : Option Entries → Edited Node
entries_or_error none = err no_such_key
entries_or_error (some fs) = ok (mapping fs)

abbrev pub drop_found : Option ℕ → Items → Edited Node
drop_found none l = err no_such_item
drop_found (some i) l = ok (sequence (drop_item i l))

unfoldable pub del_last : PathStep → Node → Edited Node
del_last (key k) (mapping fs) = entries_or_error (drop_entry k fs)
del_last (key k) (scalar w) = err no_such_key
del_last (key k) (sequence l) = err no_such_key
del_last (sel k v) (sequence l) = drop_found (find_item k v l) l
del_last (sel k v) (scalar w) = err not_a_list
del_last (sel k v) (mapping fs) = err not_a_list

pub data PatchOp : Type 0 where
  set add : Node → PatchOp
  del : PatchOp

-- applyOp, on the steps of the path and with the value
unfoldable pub apply_op : PatchOp → List PathStep → Node → Edited Node
apply_op (set v) steps root = edit_at true (set_last v) steps root
apply_op (add v) steps root = edit_at true (add_last_step v) steps root
apply_op del steps root = edit_at false del_last steps root

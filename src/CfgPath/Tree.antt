-- ===== src/CfgPath/Tree.antt =====
-- A config's canonical tree, and how an item of a list is found in it (mr/cfgpath.go seqKey, findItem;
-- mapIndex of mr/yamledit.go and listID of mr/history.go, of a list and itself). A node is its data:
-- tags, styles and comments are left out, and so are the wordings of errors. An edit that fails
-- leaves no tree, as its callers drop it then.
pub mod Edit
pub mod Fields
pub mod Named
pub mod Tests
use mini_router.Prelude.{
  ℕ, zero, suc, ◌+◌, Bool, true, false, not, ◌&&◌, ◌||◌, Option, none, some, List, [], ◌∷◌,
  if◌then◌else◌, ltb, ◌==◌,
}
use mini_router.Prelude.Bytes.{Bytes, codes}
use mini_router.Strings.{same_bytes}
use mini_router.Cron.{go_atoi}
use mini_router.CfgPath.Syntax.{PathStep, key, sel}

mutual
  pub data Node : Type 0 where
    scalar : Bytes → Node
    mapping : Entries → Node
    sequence : Items → Node

  pub data Items : Type 0 where
    no_items : Items
    item : Node → Items → Items

  pub data Entries : Type 0 where
    no_entries : Entries
    entry : Bytes → Node → Entries → Entries

pub data EditError : Type 0 where
  not_a_list has_no_keys no_such_item no_such_key needs_key exists_already in_the_list no_path :
      EditError

pub data Edited {ℓ} (A : Type ℓ) : Type ℓ where
  ok : A → Edited A
  err : EditError → Edited A

infixl 5 ◌>>=◌
abbrev pub ◌>>=◌ {ℓ κ} : {A : Type ℓ} {B : Type κ} → Edited A → (A → Edited B) → Edited B
ok a >>= f = f a
err e >>= f = err e

abbrev pub or_else : Option Node → Option Node → Option Node
or_else (some n) o = some n
or_else none o = o

-- mapIndex: the last entry of a key counts
unfoldable pub find_entry : Bytes → Entries → Option Node
find_entry k no_entries = none
find_entry k (entry j n fs) = or_else (find_entry k fs) (if same_bytes j k then some n else none)

abbrev pub map_index : Bytes → Node → Option Node
map_index k (scalar v) = none
map_index k (mapping fs) = find_entry k fs
map_index k (sequence l) = none

abbrev pub scalar_value : Option Node → Option Bytes
scalar_value none = none
scalar_value (some (scalar v)) = some v
scalar_value (some (mapping fs)) = none
scalar_value (some (sequence l)) = none

-- the scalar that the item has under the key
unfoldable pub id_of : Bytes → Node → Option Bytes
id_of k n = scalar_value (map_index k n)

abbrev pub has_bytes : Bytes → List Bytes → Bool
has_bytes v [] = false
has_bytes v (w ∷ l) = let rest = has_bytes v l in same_bytes w v || rest

abbrev pub is_new : Option Bytes → List Bytes → Bool
is_new none seen = false
is_new (some v) seen = not (has_bytes v seen)

abbrev pub and_seen : Option Bytes → List Bytes → List Bytes
and_seen none seen = seen
and_seen (some v) seen = v ∷ seen

-- whether the key identifies every item; the loop of listID
unfoldable pub identifies : Bytes → List Bytes → Items → Bool
identifies k seen no_items = true
identifies k seen (item n l) = is_new (id_of k n) seen && identifies k (and_seen (id_of k n) seen) l

abbrev pub id_keys : List Bytes
id_keys = codes "name" ∷ codes "phy" ∷ codes "ssid" ∷ codes "mac" ∷ []

unfoldable pub first_id : List Bytes → Items → Option Bytes
first_id [] l = none
first_id (k ∷ ks) l = let rest = first_id ks l in if identifies k [] l then some k else rest

abbrev pub is_mapping : Node → Bool
is_mapping (scalar v) = false
is_mapping (mapping fs) = true
is_mapping (sequence l) = false

-- seqKey; none where it is ""
unfoldable pub seq_key : Items → Option Bytes
seq_key no_items = none
seq_key (item n l) = if is_mapping n then first_id id_keys (item n l) else none

abbrev pub same_value : Option Bytes → Bytes → Bool
same_value none v = false
same_value (some w) v = same_bytes w v

abbrev pub next_index : Option ℕ → Option ℕ
next_index none = none
next_index (some i) = some (suc i)

-- the loop of findItem over a key, and over the values
unfoldable pub find_id : Bytes → Bytes → Items → Option ℕ
find_id k v no_items = none
find_id k v (item n l) =
    let rest = next_index (find_id k v l) in if same_value (id_of k n) v then some 0 else rest

abbrev pub node_value : Node → Option Bytes
node_value n = scalar_value (some n)

unfoldable pub find_value : Bytes → Items → Option ℕ
find_value v no_items = none
find_value v (item n l) =
    let rest = next_index (find_value v l) in if same_value (node_value n) v then some 0 else rest

abbrev pub count_items : Items → ℕ
count_items no_items = 0
count_items (item n l) = suc (count_items l)

-- strconv.Atoi of the selector, as an index that the list has
abbrev pub index_of : Option (Bool × ℕ) → ℕ → Option ℕ
index_of none len = none
index_of (some (true, n)) len = if n == 0 && ltb 0 len then some 0 else none
index_of (some (false, n)) len = if ltb n len then some n else none

abbrev pub or_index : Option ℕ → Option ℕ → Option ℕ
or_index none o = o
or_index (some i) o = some i

abbrev pub is_empty : Bytes → Bool
is_empty [] = true
is_empty (c ∷ s) = false

abbrev pub find_by : Option Bytes → Bytes → Items → Option ℕ
find_by none v l = or_index (find_value v l) (index_of (go_atoi v) (count_items l))
find_by (some k) v l = find_id k v l

-- findItem
unfoldable pub find_item : Bytes → Bytes → Items → Option ℕ
find_item k v l = find_by (if is_empty k then seq_key l else some k) v l

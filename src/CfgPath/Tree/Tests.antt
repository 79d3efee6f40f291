-- ===== src/CfgPath/Tree/Tests.antt =====
-- A small config.
use mini_router.Prelude.{◌≡◌, refl, none, some, List, [], ◌∷◌}
use mini_router.Prelude.Bytes.{Bytes, codes}
use mini_router.CfgPath.Syntax.{PathStep, key, sel}
use mini_router.CfgPath.Tree.{
  Node, scalar, mapping, sequence, Items, no_items, item, Entries, no_entries, entry, ok, err,
  find_entry, exists_already, seq_key, first_id, identifies, id_of, find_item, find_id, count_items,
}
use mini_router.CfgPath.Tree.Edit.{
  set_entry, node_at, change_below, edit_at, set_last, set, add, del, apply_op, add_item, add_last,
  nth_item, set_item, drop_entry, add_last_step, del_last,
}
use mini_router.CfgPath.Tree.Fields.{apply_op-node_at, apply_op-other_key}
use mini_router.CfgPath.Tree.Named.{add_item-find_item}

abbrev named : Bytes → Bytes → Node
named n p = mapping (entry (codes "name") (scalar n) (entry (codes "port") (scalar p) no_entries))

abbrev rules : Items
rules = item (named (codes "web") (codes "80")) (item (named (codes "ssh") (codes "22")) no_items)

abbrev config : Node
config = mapping (
    entry (codes "system") (mapping (entry (codes "hostname") (scalar (codes "r1")) no_entries))
      (entry (codes "rules") (sequence rules) no_entries))

abbrev hostname : List PathStep
hostname = key (codes "system") ∷ key (codes "hostname") ∷ []

abbrev renamed : Node
renamed = mapping (
    entry (codes "system") (mapping (entry (codes "hostname") (scalar (codes "r2")) no_entries))
      (entry (codes "rules") (sequence rules) no_entries))

set_hostname : apply_op (set (scalar (codes "r2"))) hostname config ≡ ok renamed
unfolding apply_op edit_at change_below find_entry set_last set_entry
set_hostname = refl

apply_op-node_at_example : node_at hostname renamed ≡ ok (scalar (codes "r2"))
apply_op-node_at_example =
    apply_op-node_at (scalar (codes "r2")) hostname config renamed tt set_hostname

apply_op-other_key_example :
    node_at (key (codes "rules") ∷ sel [] (codes "ssh") ∷ []) renamed
    ≡ node_at (key (codes "rules") ∷ sel [] (codes "ssh") ∷ []) config
apply_op-other_key_example =
    apply_op-other_key (scalar (codes "r2")) [] (key (codes "hostname") ∷ [])
      (sel [] (codes "ssh") ∷ []) (codes "system") (codes "rules") config renamed tt refl
      set_hostname

rules_key : seq_key rules ≡ some (codes "name")
unfolding seq_key first_id identifies id_of find_entry
rules_key = refl

abbrev dns_fields : Entries
dns_fields = entry (codes "name") (scalar (codes "dns")) no_entries

add_dns :
    add_item (sequence rules) (mapping dns_fields)
    ≡ ok (sequence (add_last (mapping dns_fields) rules))
unfolding add_item seq_key first_id identifies id_of find_entry find_item find_id
add_dns = refl

add_item-find_item_example :
    (nm : Bytes) × (id_of (codes "name") (mapping dns_fields) ≡ some nm)
    × (sequence (add_last (mapping dns_fields) rules)
        ≡ sequence (add_last (mapping dns_fields) rules))
    × (find_item [] nm rules ≡ none)
    × (seq_key (add_last (mapping dns_fields) rules) ≡ some (codes "name"))
    × (find_item [] nm (add_last (mapping dns_fields) rules) ≡ some (count_items rules))
add_item-find_item_example =
    add_item-find_item rules dns_fields (codes "name")
      (sequence (add_last (mapping dns_fields) rules)) rules_key add_dns

-- a second item of the same name is refused
add_web_again :
    apply_op (add (named (codes "web") (codes "81"))) (key (codes "rules") ∷ []) config
    ≡ err exists_already
unfolding apply_op edit_at add_last_step add_item find_entry seq_key first_id identifies id_of
    find_item find_id
add_web_again = refl

-- the port of an item goes
del_port :
    apply_op del
      (key (codes "rules") ∷ sel (codes "name") (codes "web") ∷ key (codes "port") ∷ [])
      config
    ≡ ok (
        mapping (
          entry
            (codes "system")
            (mapping (entry (codes "hostname") (scalar (codes "r1")) no_entries))
            (entry
              (codes "rules")
              (sequence (
                item
                  (mapping (entry (codes "name") (scalar (codes "web")) no_entries))
                  (item (named (codes "ssh") (codes "22")) no_items)))
              no_entries)))
unfolding apply_op edit_at change_below find_entry find_item find_id id_of nth_item del_last
    drop_entry set_entry set_item
del_port = refl

-- ===== src/Apply/Rollback/Stable.antt =====
-- What an undone change does to the runlevel and the firewall leaves marker and snapshots alone.
use mini_router.Prelude.{Bool, String, Option, none, some, List, [], ◌∷◌}
use mini_router.Apply.Disk.{Disk}
use mini_router.Apply.System.{System}
use mini_router.Apply.Action.Triple.{
  Keeps, Keeps-bind, Keeps-gets, Keeps-if, keeps_rules, IsStable, Keeps-relink,
}
use mini_router.Apply.Archive.{named}
use mini_router.Apply.Restore.Stable.{Keeps-files, Keeps-remove_file, Keeps-write_atomic}
use mini_router.Apply.Rollback.{
  drop_dangling, unlink_unwanted, link_wanted, link_runlevel, reconcile_runlevel, fw_load,
  settle_runtime, link_config,
}

module _ {I : Disk → Type 0}
    (on_links : (d : Disk) (l : String → Bool) → I d → I (record d { links = l }))
    (sys : System) where
  Keeps-drop_dangling : Keeps I drop_dangling
  unfolding drop_dangling
  Keeps-drop_dangling = Keeps-relink on_links _

  Keeps-unlink_unwanted : (want l : List String) → Keeps I (unlink_unwanted sys want l)
  unfolding unlink_unwanted
  Keeps-unlink_unwanted want [] = search keeps_rules
  Keeps-unlink_unwanted want (s ∷ l) =
      let rest = Keeps-unlink_unwanted want l in
      Keeps-if (named s want) _ _ rest (Keeps-bind _ _ (Keeps-relink on_links _) (λ _. rest))

  Keeps-link_wanted : (l : List String) → Keeps I (link_wanted sys l)
  unfolding link_wanted
  Keeps-link_wanted [] = search keeps_rules
  Keeps-link_wanted (s ∷ l) =
      let rest = Keeps-link_wanted l in
      Keeps-bind _ _ (Keeps-gets _)
        (λ there. Keeps-if there _ _ (Keeps-bind _ _ (Keeps-relink on_links _) (λ _. rest)) rest)

  pub Keeps-link_runlevel : (c : sys.Config) → Keeps I (link_runlevel sys c)
  unfolding link_runlevel
  Keeps-link_runlevel c =
      search (keeps_rules, Keeps-unlink_unwanted, Keeps-drop_dangling, Keeps-link_wanted)

  Keeps-reconcile_runlevel : (c : sys.Config) → Keeps I (reconcile_runlevel sys c)
  unfolding reconcile_runlevel
  Keeps-reconcile_runlevel c =
      search (keeps_rules, Keeps-unlink_unwanted, Keeps-drop_dangling, Keeps-link_wanted)

  pub Keeps-link_config : (o : Option sys.Config) → Keeps I (link_config sys o)
  unfolding link_config
  Keeps-link_config none = search keeps_rules
  Keeps-link_config (some c) = Keeps-link_runlevel c

module _ {I : Disk → Type 0} (st : IsStable I) (sys : System) where
  pub Keeps-fw_load : (c : sys.Config) → Keeps I (fw_load sys c)
  unfolding fw_load
  Keeps-fw_load c =
      search (keeps_rules, Keeps-write_atomic st, Keeps-remove_file st, Keeps-files st) depth 8

  pub Keeps-settle_runtime : (o : Option sys.Config) → Keeps I (settle_runtime sys o)
  unfolding settle_runtime
  Keeps-settle_runtime none = search keeps_rules
  Keeps-settle_runtime (some c) =
      search (keeps_rules, Keeps-reconcile_runlevel st.on_links, Keeps-fw_load)

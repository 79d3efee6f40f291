-- ===== src/Apply/Run/Stable.antt =====
-- The steps of an apply that leave the marker and the snapshots alone.
use mini_router.Prelude.{Bool, false, String, Option, none, some, List, [], ◌∷◌}
use mini_router.Apply.Disk.{FilePath, Disk}
use mini_router.Apply.System.{System}
use mini_router.Apply.Action.Triple.{Keeps, Keeps-bind, Keeps-if, Keeps-pure, keeps_rules, IsStable}
use mini_router.Apply.Restore.{removed_wan_service}
use mini_router.Apply.Restore.Stable.{
  Keeps-links, Keeps-remove_file, Keeps-write_atomic, Keeps-stop_and_disable,
}
use mini_router.Apply.Run.{
  Candidate, install, run_install, write_files, link_all, remove_files, remove_wrapper,
  remove_orphan, remove_orphans,
}

module _ {I : Disk → Type 0} (st : IsStable I) (sys : System) where
  pub Keeps-run_install : (k : Option Candidate) → Keeps I (run_install sys k)
  unfolding run_install install
  Keeps-run_install none = search keeps_rules
  Keeps-run_install (some k) = search (keeps_rules, Keeps-write_atomic st)

  pub Keeps-write_files : (l : List (FilePath × String)) → Keeps I (write_files sys l)
  unfolding write_files
  Keeps-write_files [] = search keeps_rules
  Keeps-write_files ((p, s) ∷ l) =
      Keeps-bind _ _ (Keeps-write_atomic st sys p s)
        (λ done. Keeps-if done _ _ (Keeps-write_files l) (Keeps-pure false))

  pub Keeps-link_all : (b : Bool) (l : List String) → Keeps I (link_all sys b l)
  unfolding link_all
  Keeps-link_all b [] = search keeps_rules
  Keeps-link_all b (s ∷ l) = Keeps-bind _ _ (Keeps-links st _) (λ _. Keeps-link_all b l)

  pub Keeps-remove_files : (l : List FilePath) → Keeps I (remove_files sys l)
  unfolding remove_files
  Keeps-remove_files [] = search keeps_rules
  Keeps-remove_files (p ∷ l) = Keeps-bind _ _ (Keeps-remove_file st p) (λ _. Keeps-remove_files l)

  Keeps-remove_wrapper : (p : FilePath) → Keeps I (remove_wrapper sys p)
  unfolding remove_wrapper
  Keeps-remove_wrapper p = search (keeps_rules, Keeps-remove_file st, Keeps-links st)

  Keeps-remove_orphan :
      (p : FilePath) (o : Option String) (stopped : List String)
      → Keeps I (remove_orphan sys p o stopped)
  unfolding remove_orphan
  Keeps-remove_orphan p none stopped = search (keeps_rules, Keeps-remove_wrapper)
  Keeps-remove_orphan p (some s) stopped =
      search (keeps_rules, Keeps-remove_wrapper, Keeps-stop_and_disable st)

  pub Keeps-remove_orphans :
      (l : List FilePath) (stopped : List String) → Keeps I (remove_orphans sys l stopped)
  unfolding remove_orphans
  Keeps-remove_orphans [] stopped = search keeps_rules
  Keeps-remove_orphans (p ∷ l) stopped =
      Keeps-bind _ _ (Keeps-remove_orphan p (removed_wan_service p) stopped)
        (λ stopped'. Keeps-remove_orphans l stopped')

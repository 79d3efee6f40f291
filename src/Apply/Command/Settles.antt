-- ===== src/Apply/Command/Settles.antt =====
-- What a rollback on request leaves of the pending change.
use mini_router.Prelude.{
  ℕ, ◌≡◌, refl, Bool, true, false, String, Option, none, some, arith, sym, subst, inl, inr, ◌⊎◌,
}
use mini_router.Apply.Disk.{
  Disk, Marker, absent, unreadable, marked, PendingApply, State, applying, pending, reverting,
}
use mini_router.Apply.System.{System}
use mini_router.Apply.Action.{World, Out, ret, cut, M, ◌>>=◌, gets}
use mini_router.Apply.Action.Triple.{
  Triple, Triple-bind, Triple-gets, Triple-now, Triple-if, Triple-pure, Triple-effect, Triple-post,
  Triple-pre, Holds, Keeps, Keeps-bind, Keeps-if, Keeps-pure, Keeps-now, Keeps-effect, IsStable,
}
use mini_router.Apply.Pending.{set_pending, clear_pending, remove_marker}
use mini_router.Apply.Restore.Stable.{Keeps-restore, Keeps-undo_lists}
use mini_router.Apply.Rollback.Stable.{Keeps-settle_runtime}
use mini_router.Apply.Rollback.Settling.{Keeps-set_result}
use mini_router.Apply.Command.{
  CommandResult, running, no_snapshots, failed, restored, mark_state, mark_reverting, original,
  unmark, undo_marked_lists, record_reverted, finish_command, roll_to, command_on, rollback_command,
  is_running, snapshot_for,
}

-- the marker is still there, for the same snapshots
abbrev pub IsOf : PendingApply → Marker → Type 0
IsOf p absent = ⊥
IsOf p unreadable = ⊥
IsOf p (marked p') = (p'.snapshot ≡ p.snapshot) × (p'.list_snapshot ≡ p.list_snapshot)

-- the marker is settled, or still there for the same snapshots
abbrev pub IsLeft : PendingApply → Marker → Type 0
IsLeft p absent = Unit
IsLeft p unreadable = ⊥
IsLeft p (marked p') = (p'.snapshot ≡ p.snapshot) × (p'.list_snapshot ≡ p.list_snapshot)

IsOf-IsLeft : (p : PendingApply) (m : Marker) → IsOf p m → IsLeft p m
IsOf-IsLeft p absent h = absurd h
IsOf-IsLeft p unreadable h = absurd h
IsOf-IsLeft p (marked p') h = h

-- the state of a marker after its rollback has failed: a change waits for its confirmation again
abbrev pub reset_state : State → State
reset_state applying = applying
reset_state pending = pending
reset_state reverting = pending

-- the marker names the same snapshots, and its state is reset, where the marker could be written
abbrev pub IsReset : System → PendingApply → Marker → Type 0
IsReset sys p absent = ⊥
IsReset sys p unreadable = ⊥
IsReset sys p (marked p') =
    IsOf p (marked p')
    × ((p'.state ≡ reset_state p.state) ⊎ ((n : ℕ) × (sys.marker_fails n ≡ true)))

-- the marker is gone, or its removal failed and it names the same snapshots
abbrev pub IsGone : System → PendingApply → Marker → Type 0
IsGone sys p m = (m ≡ absent) ⊎ (IsOf p m × ((n : ℕ) × (sys.remove_fails n ≡ true)))

-- Where the command puts the files back, the change is settled; where it is refused, nothing is
-- changed of the marker; where it cannot put the files back, the marker is reset; and where the power
-- goes, it is gone or names the same snapshots.
abbrev pub IsSettledBy : System → PendingApply → Out CommandResult → Disk → Type 0
IsSettledBy sys p (ret restored) d = IsGone sys p d.marker
IsSettledBy sys p (ret running) d = d.marker ≡ marked p
IsSettledBy sys p (ret no_snapshots) d = d.marker ≡ marked p
IsSettledBy sys p (ret failed) d = IsReset sys p d.marker
IsSettledBy sys p cut d = IsLeft p d.marker

module _ (sys : System) (p : PendingApply) where
  abbrev Of : Disk → Type 0
  Of d = IsOf p d.marker

  abbrev Left : Disk → Type 0
  Left d = IsLeft p d.marker

  abbrev Gone : Disk → Type 0
  Gone d = IsGone sys p d.marker

  -- the marker as it was found
  abbrev Found : Disk → Type 0
  Found d = d.marker ≡ marked p

  Of-stable : IsStable Of
  Of-stable = record {
    on_files = λ d f h. h;
    on_links = λ d l h. h;
    on_revisions = λ d r h. h;
    on_lists = λ d t h. h;
  }

  Gone-stable : IsStable Gone
  Gone-stable = record {
    on_files = λ d f h. h;
    on_links = λ d l h. h;
    on_revisions = λ d r h. h;
    on_lists = λ d t h. h;
  }

  leaves : {A : Type 0} {m : M A} → Keeps Of m → Triple Of Left m (λ _. Of)
  leaves k = Triple-post _ (λ d h. IsOf-IsLeft p d.marker h) (λ a d h. h) k.triple

  Gone-Left : (m : Marker) → IsGone sys p m → IsLeft p m
  Gone-Left m (inr h) = IsOf-IsLeft p m h.0
  Gone-Left absent (inl e) = tt
  Gone-Left unreadable (inl e) = cc
  Gone-Left (marked p') (inl e) = cc

  Found-Of : (m : Marker) → m ≡ marked p → IsOf p m
  Found-Of absent e = cc
  Found-Of unreadable e = cc
  Found-Of (marked p') e = ground arith

  stays : {A : Type 0} {m : M A} → Keeps Gone m → Triple Gone Left m (λ _. Gone)
  stays k = Triple-post _ (λ d h. Gone-Left d.marker h) (λ a d h. h) k.triple

  Keeps-set_pending :
      (p' : PendingApply)
      → p'.snapshot ≡ p.snapshot
      → p'.list_snapshot ≡ p.list_snapshot
      → Keeps Of (set_pending sys p')
  unfolding set_pending
  Keeps-set_pending p' e l = Keeps-bind _ _ Keeps-now (λ n.
      Keeps-if (sys.marker_fails n) _ _ (Keeps-pure false)
        (Keeps-bind _ _ (Keeps-effect _ (λ d h. (e, l))) (λ _. Keeps-pure true)))

  Keeps-mark_state :
      (p' : PendingApply) (s : State) → IsOf p (marked p') → Keeps Of (mark_state sys p' s)
  unfolding mark_state
  Keeps-mark_state p' applying h =
      Keeps-bind _ _ (Keeps-set_pending (record p' { state = reverting }) h.0 h.1)
        (λ _. Keeps-pure tt)
  Keeps-mark_state p' pending h =
      Keeps-bind _ _ (Keeps-set_pending (record p' { state = reverting }) h.0 h.1)
        (λ _. Keeps-pure tt)
  Keeps-mark_state p' reverting h = Keeps-pure tt

  Keeps-mark_reverting : (m : Marker) → IsOf p m → Keeps Of (mark_reverting sys m)
  unfolding mark_reverting
  Keeps-mark_reverting absent h = absurd h
  Keeps-mark_reverting unreadable h = absurd h
  Keeps-mark_reverting (marked p') h = Keeps-mark_state p' p'.state h

  -- the reset of the marker
  unmark-IsReset : Triple Of Left (unmark sys (marked p)) (λ _ d. IsReset sys p d.marker)
  unfolding unmark set_pending original
  unmark-IsReset =
      Triple-bind _ _
        (Triple-bind _ _ (Triple-now {Q = λ _. Of} (λ n d h. h)) (λ n.
          Triple-if (sys.marker_fails n) _ _
            (λ e.
              Triple-pure {Q = λ _ d. IsReset sys p d.marker} false
                (λ d h. failed_write d.marker n e h))
            (λ _.
              Triple-bind _ _
                (Triple-effect {Q = λ _ d. IsReset sys p d.marker} _
                  (λ d h. IsOf-IsLeft p d.marker h) (λ d h. ((refl, refl), inl (reset p.state))))
                (λ _. Triple-pure true (λ d h. h)))))
        (λ _. Triple-pure tt (λ d h. h))
    where
      reset : (s : State) → original sys s ≡ reset_state s
      reset applying = refl
      reset pending = refl
      reset reverting = refl

      failed_write : (m : Marker) (n : ℕ) → sys.marker_fails n ≡ true → IsOf p m → IsReset sys p m
      failed_write absent n e h = absurd h
      failed_write unreadable n e h = absurd h
      failed_write (marked p') n e h = (h, inr (n, e))

  Keeps-undo_marked_lists : (m : Marker) → Keeps Of (undo_marked_lists sys m)
  unfolding undo_marked_lists
  Keeps-undo_marked_lists absent = Keeps-pure tt
  Keeps-undo_marked_lists unreadable = Keeps-pure tt
  Keeps-undo_marked_lists (marked p') = Keeps-undo_lists Of-stable sys p'.list_snapshot

  Keeps-record_reverted : (m : Marker) → Keeps Gone (record_reverted sys m)
  unfolding record_reverted
  Keeps-record_reverted absent = Keeps-pure tt
  Keeps-record_reverted unreadable = Keeps-pure tt
  Keeps-record_reverted (marked p') =
      Keeps-set_result Gone-stable p'.snapshot "rolled back: reverted"

  clear-Gone : Triple Of Left (clear_pending sys "") (λ _. Gone)
  unfolding clear_pending remove_marker
  clear-Gone = Triple-bind {Q = λ _. Of} _ _ (Triple-gets (λ d. d.marker) (λ d h. h)) (λ m.
      Triple-bind _ _ (Triple-now {Q = λ _. Of} (λ n d h. h)) (λ n.
        Triple-if (sys.remove_fails n) _ _ (λ e. Triple-pure tt (λ d h. inr (h, (n, e))))
          (λ _. Triple-effect _ (λ d h. IsOf-IsLeft p d.marker h) (λ d h. inl refl))))

  finish_command-IsSettledBy :
      (b : Bool) → Triple Of Left (finish_command sys (marked p) b) (λ r. IsSettledBy sys p (ret r))
  unfolding finish_command
  finish_command-IsSettledBy false =
      Triple-bind _ _ unmark-IsReset (λ _. Triple-pure failed (λ d h. h))
  finish_command-IsSettledBy true =
      Triple-bind _ _ (leaves (Keeps-undo_marked_lists (marked p))) (λ _.
        Triple-bind {Q = λ _. Of} _ _ (Triple-gets _ (λ d h. h)) (λ c.
          Triple-bind _ _ (leaves (Keeps-settle_runtime Of-stable sys c)) (λ _.
            Triple-bind _ _ clear-Gone (λ _.
              Triple-bind _ _ (stays (Keeps-record_reverted (marked p)))
                (λ _. Triple-pure restored (λ d h. h))))))

  roll_to-IsSettledBy :
      (o : Option String)
      → Triple Found Left (roll_to sys (marked p) o) (λ r. IsSettledBy sys p (ret r))
  unfolding roll_to
  roll_to-IsSettledBy none = Triple-pure no_snapshots (λ d h. h)
  roll_to-IsSettledBy (some snap) =
      Triple-pre _ (λ d h. Found-Of d.marker h)
        (Triple-bind _ _ (leaves (Keeps-mark_reverting (marked p) (refl, refl))) (λ _.
          Triple-bind _ _ (leaves (Keeps-restore Of-stable sys snap true))
            finish_command-IsSettledBy))

  command_on-IsSettledBy :
      (arg : Option String)
      → Triple Found Left (command_on sys arg (marked p)) (λ r. IsSettledBy sys p (ret r))
  unfolding command_on
  command_on-IsSettledBy arg =
      Triple-if (is_running sys (marked p)) _ _ (λ _. Triple-pure running (λ d h. h))
        (λ _.
          Triple-bind {Q = λ _. Found} _ _
            (Triple-gets (snapshot_for sys arg (marked p)) (λ d h. h)) roll_to-IsSettledBy)

  command_from :
      (arg : Option String) (m : Marker)
      → m ≡ marked p
      → Triple Found Left (command_on sys arg m) (λ r. IsSettledBy sys p (ret r))
  command_from arg m e =
      subst (λ x. Triple Found Left (command_on sys arg x) (λ r. IsSettledBy sys p (ret r))) (sym e)
        (command_on-IsSettledBy arg)

  by_outcome :
      (c : Option ℕ) (r : Out CommandResult) (w : World)
      → Holds Left (λ r. IsSettledBy sys p (ret r)) c r w
      → IsSettledBy sys p r w.disk
  by_outcome c (ret r) w h = h.0
  by_outcome c cut w h = h.0

-- A rollback on request of whichever snapshot, while a change is marked: where it puts the files
-- back, no marker is left, or its removal failed and it names the change's snapshots; where it is
-- refused or finds no snapshot, the marker is as it was; where it cannot restore the snapshot, the
-- marker names the change's snapshots, and is pending again if it was pending or reverting, unless the
-- write of the marker failed; and where the power cuts it, the marker is gone or still names them.
pub rollback_command-IsSettledBy :
    (sys : System) (arg : Option String) (w : World) (p : PendingApply)
    → w.disk.marker ≡ marked p
    → IsSettledBy sys p (rollback_command sys arg w).0 (rollback_command sys arg w).1.disk
unfolding rollback_command ◌>>=◌ gets
rollback_command-IsSettledBy sys arg w p e =
    by_outcome sys p w.cut_at _ _ ((command_from sys p arg w.disk.marker e).at w e)

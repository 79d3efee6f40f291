-- ===== src/Apply/Confirm/Race.antt =====
-- A confirmation and a rollback that race: where the marker can be removed, exactly one of them wins.
use mini_router.Prelude.{
  ℕ, ◌≡◌, refl, Bool, true, false, ◌||◌, String, Option, none, some, arith, if◌then◌else◌, ◌∙◌, ◌⊎◌,
  inl, inr, subst,
}
use mini_router.Apply.Disk.{
  Disk, Marker, absent, unreadable, marked, PendingApply, State, applying, pending, reverting,
}
use mini_router.Apply.System.{System}
use mini_router.Apply.Action.{World, Out, ret, M, ◌>>=◌, pure, gets}
use mini_router.Apply.Action.Triple.{
  Triple, Triple-bind, Triple-gets, Triple-now, Triple-if, Triple-pure, Triple-effect, Triple-post,
  Keeps, Keeps-pure, Holds, IsStable,
}
use mini_router.Apply.Pending.{
  start_revert, start_on, start_marked, set_pending, clear_pending, remove_marker,
}
use mini_router.Apply.Restore.Stable.{Keeps-accept_staged, Keeps-files, Keeps-lists}
use mini_router.Apply.Rollback.Settling.{Keeps-set_result}
use mini_router.Apply.Restore.PutBack.{Any}
use mini_router.Apply.Confirm.{
  Confirmed, nothing, still_running, being_reverted, kept, commit, record_result, keep_change,
  confirm_marked, confirm_marker, confirm,
}

-- A started rollback has marked the change as its own.
abbrev Started : Option PendingApply → Disk → Type 0
Started none d = Unit
Started (some p) d = (d.marker ≡ marked p) × (p.state ≡ reverting)

-- The marker is gone, or it is the one before, whose removal failed.
abbrev pub IsCleared : System → Marker → Disk → Type 0
IsCleared sys m d = (d.marker ≡ absent) ⊎ ((d.marker ≡ m) × ((n : ℕ) × (sys.remove_fails n ≡ true)))

abbrev Kept : System → Marker → Confirmed → Disk → Type 0
Kept sys m kept d = IsCleared sys m d
Kept sys m _ d = Unit

or_true : (b : Bool) → (b || true) ≡ true
or_true true = refl
or_true false = refl

module _ (sys : System) where
  set_pending-marks :
      (p : PendingApply)
      → Triple Any Any (set_pending sys p) (λ b d. b ≡ true → d.marker ≡ marked p)
  unfolding set_pending
  set_pending-marks p = Triple-bind _ _ (Triple-now (λ n d h. h)) (λ n.
      Triple-if (sys.marker_fails n) _ _ (λ _. Triple-pure false (λ d h e. cc))
        (λ _.
          Triple-bind _ _
            (Triple-effect {Q = λ _ d. d.marker ≡ marked p} _ (λ d h. tt) (λ d h. refl))
            (λ _. Triple-pure true (λ d h e. h))))

  Started-if :
      (b : Bool) (p : PendingApply) (d : Disk)
      → p.state ≡ reverting
      → (b ≡ true → d.marker ≡ marked p)
      → Started (if b then some p else none) d
  Started-if true p d s h = (h refl, s)
  Started-if false p d s h = tt

  start_marked-Started :
      (snap : String) (p : PendingApply) → Triple Any Any (start_marked sys snap p) Started
  unfolding start_marked
  start_marked-Started snap p =
      let p' = record p { state = reverting } in
      Triple-if _ _ _ (λ _. Triple-pure none (λ d h. tt))
        (λ _.
          Triple-bind _ _ (set_pending-marks p')
            (λ done. Triple-pure _ (λ d h. Started-if done p' d refl h)))

  start_on-Started : (snap : String) (m : Marker) → Triple Any Any (start_on sys snap m) Started
  unfolding start_on
  start_on-Started snap absent = Triple-pure none (λ d h. tt)
  start_on-Started snap unreadable = Triple-pure none (λ d h. tt)
  start_on-Started snap (marked p) = start_marked-Started snap p

  start_revert-Started : (snap : String) → Triple Any Any (start_revert sys snap) Started
  start_revert-Started snap =
      unfold start_revert in
      Triple-bind _ _ (Triple-gets (λ d. d.marker) (λ d h. tt)) (start_on-Started snap)

  module _ (m0 : Marker) where
    abbrev Same : Disk → Type 0
    Same d = d.marker ≡ m0

    abbrev Cleared : Disk → Type 0
    Cleared d = IsCleared sys m0 d

    Cleared-stable : IsStable Cleared
    Cleared-stable = record {
      on_files = λ d f h. h;
      on_links = λ d l h. h;
      on_revisions = λ d r h. h;
      on_lists = λ d t h. h;
    }

    pub clear-Cleared : Triple Same Any (clear_pending sys "") (λ _. Cleared)
    unfolding clear_pending remove_marker
    clear-Cleared = Triple-bind _ _ (Triple-gets {Q = λ _. Same} (λ d. d.marker) (λ d h. h)) (λ m.
        Triple-bind _ _ (Triple-now {Q = λ _. Same} (λ n d h. h)) (λ n.
          Triple-if (sys.remove_fails n) _ _ (λ e. Triple-pure tt (λ d h. inr (h, (n, e))))
            (λ _. Triple-effect _ (λ d h. tt) (λ d h. inl refl))))

    commit-Cleared : (c : Option sys.Config) → Keeps Cleared (commit sys c)
    unfolding commit
    commit-Cleared none = Keeps-pure tt
    commit-Cleared (some c) = Keeps-files Cleared-stable _

    record_result-Cleared : (m : Marker) → Keeps Cleared (record_result sys m)
    unfolding record_result
    record_result-Cleared absent = Keeps-pure tt
    record_result-Cleared unreadable = Keeps-pure tt
    record_result-Cleared (marked p) = Keeps-set_result Cleared-stable p.snapshot "confirmed"

    loose : {A : Type 0} {m : M A} → Keeps Cleared m → Triple Cleared Any m (λ _. Cleared)
    loose k = Triple-post _ (λ d h. tt) (λ a d h. h) k.triple

    keep_change-Kept :
        (m : Marker) (c : Option sys.Config) → Triple Same Any (keep_change sys m c) (Kept sys m0)
    unfolding keep_change
    keep_change-Kept m c = Triple-bind _ _ clear-Cleared (λ _.
        Triple-bind _ _ (loose (Keeps-lists Cleared-stable "")) (λ _.
          Triple-bind _ _ (loose (Keeps-accept_staged Cleared-stable)) (λ _.
            Triple-bind _ _ (loose (commit-Cleared c)) (λ _.
              Triple-bind _ _ (loose (record_result-Cleared m))
                (λ _. Triple-pure kept (λ d h. h))))))

    confirm_marked-Kept :
        (p : PendingApply) (s : State) → Triple Same Any (confirm_marked sys p s) (Kept sys m0)
    unfolding confirm_marked
    confirm_marked-Kept p applying = Triple-pure still_running (λ d h. tt)
    confirm_marked-Kept p reverting = Triple-pure being_reverted (λ d h. tt)
    confirm_marked-Kept p pending =
        Triple-bind _ _ (Triple-gets _ (λ d h. h)) (λ c. keep_change-Kept (marked p) c)

    confirm_marker-Kept : (m : Marker) → Triple Same Any (confirm_marker sys m) (Kept sys m0)
    unfolding confirm_marker
    confirm_marker-Kept absent = Triple-pure nothing (λ d h. tt)
    confirm_marker-Kept unreadable = keep_change-Kept unreadable none
    confirm_marker-Kept (marked p) = confirm_marked-Kept p p.state

    confirm-Kept : Triple Same Any (confirm sys) (Kept sys m0)
    confirm-Kept =
        unfold confirm in
        Triple-bind _ _ (Triple-gets (λ d. d.marker) (λ d h. h)) confirm_marker-Kept

  refused_marked :
      (w : World) (m : Marker) (p : PendingApply)
      → m ≡ marked p
      → p.state ≡ reverting
      → confirm_marker sys m w ≡ (ret being_reverted, w)
  unfolding confirm_marker confirm_marked pure
  refused_marked w absent p e s = cc
  refused_marked w unreadable p e s = cc
  refused_marked w (marked p') p e s = rw (state_of e ∙ s)
    where
      state_of : marked p' ≡ marked p → p'.state ≡ p.state
      state_of e = ground arith

  start_marked-reverting :
      (snap : String) (w : World) (p : PendingApply)
      → p.state ≡ reverting
      → start_marked sys snap p w ≡ (ret none, w)
  unfolding start_marked pure
  start_marked-reverting snap w p s = rw (s, or_true)

  start_on-reverting :
      (snap : String) (w : World) (m : Marker) (p : PendingApply)
      → m ≡ marked p
      → p.state ≡ reverting
      → start_on sys snap m w ≡ (ret none, w)
  unfolding start_on pure
  start_on-reverting snap w absent p e s = refl
  start_on-reverting snap w unreadable p e s = refl
  start_on-reverting snap w (marked p') p e s = start_marked-reverting snap w p' (ground arith)

  start_on-absent :
      (snap : String) (w : World) (m : Marker) → m ≡ absent → start_on sys snap m w ≡ (ret none, w)
  unfolding start_on pure
  start_on-absent snap w absent e = refl
  start_on-absent snap w unreadable e = cc
  start_on-absent snap w (marked p) e = cc

returned :
    {A : Type 0} (a : A) (Q : A → Disk → Type 0) (c : Option ℕ) (w : World) (x : Out A × World)
    → x ≡ (ret a, w)
    → Holds Any Q c x.0 x.1
    → Q a w.disk
returned a Q c w x e h = (subst (λ x. Holds Any Q c x.0 x.1) e h).0

confirm_absent :
    (sys : System) (w : World) (m : Marker) → m ≡ absent → confirm_marker sys m w ≡ (ret nothing, w)
unfolding confirm_marker pure
confirm_absent sys w absent e = refl
confirm_absent sys w unreadable e = cc
confirm_absent sys w (marked p) e = cc

-- When a rollback has started, a confirmation that comes after it is refused and changes nothing,
-- and so does a second rollback, of whichever snapshot.
pub reverted_first :
    (sys : System) (w w' : World) (snap other : String) (p : PendingApply)
    → start_revert sys snap w ≡ (ret (some p), w')
    → (confirm sys w' ≡ (ret being_reverted, w')) × (start_revert sys other w' ≡ (ret none, w'))
unfolding confirm start_revert ◌>>=◌ gets
reverted_first sys w w' snap other p e =
    let (m, s) = returned _ Started w.cut_at _ _ e ((start_revert-Started sys snap).at w tt) in
    (
      refused_marked sys w' w'.disk.marker p m s,
      start_on-reverting sys other w' w'.disk.marker p m s,
    )

-- When a confirmation has kept the change: no rollback starts after it, of whichever snapshot, and a
-- second confirmation finds nothing, and neither changes anything; or the removal of the marker failed,
-- and the marker is still the one before the confirmation.
pub confirmed_first :
    (sys : System) (w w' : World) (snap : String)
    → confirm sys w ≡ (ret kept, w')
    → ((start_revert sys snap w' ≡ (ret none, w')) × (confirm sys w' ≡ (ret nothing, w')))
      ⊎ ((w'.disk.marker ≡ w.disk.marker) × ((n : ℕ) × (sys.remove_fails n ≡ true)))
unfolding confirm start_revert ◌>>=◌ gets
confirmed_first sys w w' snap e =
    let m = w.disk.marker in
    elim (returned _ (Kept sys m) w.cut_at _ _ e ((confirm-Kept sys m).at w refl)) [
      | inl a ↦
          inl (start_on-absent sys snap w' w'.disk.marker a, confirm_absent sys w' w'.disk.marker a)
      | inr left ↦ inr left
    ]

-- ===== src/Apply/Pending/Claim.antt =====
-- Claiming the marker: it becomes ours, or it stays gone, or it is cut to an unreadable one.
use mini_router.Prelude.{◌≡◌, refl, Bool, true, false, String, some}
use mini_router.Apply.Disk.{
  Disk, Marker, absent, unreadable, marked, PendingApply, Snapshot, snap_of,
}
use mini_router.Apply.System.{System}
use mini_router.Apply.Action.Triple.{
  Triple, Triple-bind, Triple-gets, Triple-now, Triple-if, Triple-pure, Triple-effect, Triple-known,
}
use mini_router.Apply.Archive.Prune.{IsSaved}
use mini_router.Apply.Pending.{write_claim, claim_on, claim_pending}

abbrev pub NotMarked : Marker → Type 0
NotMarked absent = Unit
NotMarked unreadable = Unit
NotMarked (marked p) = ⊥

-- A marker that is `p`, beside the snapshot.
pub record IsClaimed (snap : String) (s : Snapshot) (p : PendingApply) (d : Disk) : Type 0 where
  pub mine : d.marker ≡ marked p
  pub kept : snap_of snap d.snaps ≡ some s

module _ (sys : System) (snap : String) (s : Snapshot) (p : PendingApply) where
  abbrev pub Claims : Bool → Disk → Type 0
  Claims true d = IsClaimed snap s p d
  Claims false d = NotMarked d.marker

  record IsCreated (d : Disk) : Type 0 where
    bare : d.marker ≡ unreadable
    kept : snap_of snap d.snaps ≡ some s

  absent-NotMarked : (m : Marker) → m ≡ absent → NotMarked m
  absent-NotMarked absent e = tt
  absent-NotMarked unreadable e = tt
  absent-NotMarked (marked q) e = cc

  unreadable-NotMarked : (m : Marker) → m ≡ unreadable → NotMarked m
  unreadable-NotMarked absent e = tt
  unreadable-NotMarked unreadable e = tt
  unreadable-NotMarked (marked q) e = cc

  write_claim-Claims : Triple (IsSaved snap s) (λ d. NotMarked d.marker) (write_claim sys p) Claims
  unfolding write_claim
  write_claim-Claims =
      Triple-bind _ _
        (Triple-effect {Q = λ _. IsCreated} _ (λ d h. absent-NotMarked _ h.unmarked)
          (λ d h. record { bare = refl; kept = h.kept }))
        (λ _. Triple-bind _ _ (Triple-now (λ n d h. h)) (λ n.
          Triple-if (sys.marker_fails n) _ _
            (λ _.
              Triple-bind _ _
                (Triple-effect {Q = λ _ d. NotMarked d.marker} _
                  (λ d h. unreadable-NotMarked _ h.bare) (λ d h. tt))
                (λ _. Triple-pure false (λ d h. h)))
            (λ _.
              Triple-bind _ _
                (Triple-effect {Q = λ _. IsClaimed snap s p} _
                  (λ d h. unreadable-NotMarked _ h.bare)
                  (λ d h. record { mine = refl; kept = h.kept }))
                (λ _. Triple-pure true (λ d h. h)))))

  claim_on-Claims :
      (m : Marker)
      → m ≡ absent
      → Triple (IsSaved snap s) (λ d. NotMarked d.marker) (claim_on sys p m) Claims
  unfolding claim_on
  claim_on-Claims absent e = write_claim-Claims
  claim_on-Claims unreadable e = cc
  claim_on-Claims (marked q) e = cc

  -- The marker is claimed, or there is none of a change: also when the power goes.
  pub claim_pending-Claims :
      Triple (IsSaved snap s) (λ d. NotMarked d.marker) (claim_pending sys p) Claims
  unfolding claim_pending
  claim_pending-Claims =
      Triple-bind _ _ (Triple-gets (λ d. d.marker) (λ d h. (h, h.unmarked)))
        (λ m. Triple-known (λ e. claim_on-Claims m e))

-- ===== src/Apply/Action/Triple.antt =====
-- Specifications of programs: what holds where a program returns, and wherever the power goes.
use mini_router.Prelude.{
  ℕ, ◌≡◌, ◌≢◌, refl, Bool, true, false, Option, none, some, if◌then◌else◌, Bool-cases, inl, inr,
  String, List,
}
use mini_router.Apply.Disk.{Disk, Files, Revision, absent}
use mini_router.Apply.Action.{
  World, Out, ret, cut, M, continue, ◌>>=◌, pure, gets, now, is_cut, effect,
}

-- The moment of the cut stays what it was, and a program that is cut had such a moment.
abbrev pub Holds :
    {A : Type 0} → (Disk → Type 0) → (A → Disk → Type 0) → Option ℕ → Out A → World → Type 0
Holds I Q c (ret a) w = Q a w.disk × (w.cut_at ≡ c)
Holds I Q c cut w = I w.disk × (w.cut_at ≡ c) × (c ≢ none)

-- What holds of the disk in every case.
pub Holds-disk :
    {A : Type 0} (c : Option ℕ) (r : Out A) (w : World) (P : Disk → Type 0)
    → Holds P (λ _. P) c r w
    → P w.disk
Holds-disk c (ret a) w P h = h.0
Holds-disk c cut w P h = h.0

-- From a disk with `P`, the program returns with `Q` or is cut with `I`.
pub record Triple {A : Type 0} (P : Disk → Type 0) (I : Disk → Type 0) (m : M A)
    (Q : A → Disk → Type 0) : Type 0 where
  pub at : (w : World) → P w.disk → Holds I Q w.cut_at (m w).0 (m w).1

-- An invariant of a program.
pub record Keeps {A : Type 0} (I : Disk → Type 0) (m : M A) : Type 0 where
  pub triple : Triple I I m (λ _. I)

cut-ne-none : (c : Option ℕ) (n : ℕ) → is_cut c n ≡ true → c ≢ none
unfolding is_cut
cut-ne-none none n h e = cc
cut-ne-none (some k) n h e = cc

module _ {I : Disk → Type 0} where
  Holds-at :
      {B : Type 0} {P : Disk → Type 0} {R : B → Disk → Type 0} {c : Option ℕ} (w : World) {m : M B}
      → Triple P I m R
      → w.cut_at ≡ c
      → P w.disk
      → Holds I R c (m w).0 (m w).1
  Holds-at w t e h = rw (← e) (t.at w h)

module _ {I : Disk → Type 0} {A : Type 0} {Q : A → Disk → Type 0} where
  Holds-post :
      {I' : Disk → Type 0} {Q' : A → Disk → Type 0} (c : Option ℕ) (r : Out A) (w : World)
      → ((d : Disk) → I d → I' d)
      → ((a : A) (d : Disk) → Q a d → Q' a d)
      → Holds I Q c r w
      → Holds I' Q' c r w
  Holds-post c (ret a) w i q (h, e) = (q a w.disk h, e)
  Holds-post c cut w i q (h, e, n) = (i w.disk h, e, n)

  Holds-bind :
      {B : Type 0} {R : B → Disk → Type 0} (c : Option ℕ) (r : Out A) (w : World) (f : A → M B)
      → ((a : A) → Triple (Q a) I (f a) R)
      → Holds I Q c r w
      → Holds I R c (continue r w f).0 (continue r w f).1
  Holds-bind c (ret a) w f t (h, e) = Holds-at w (t a) e h
  Holds-bind c cut w f t h = h

module _ {P I : Disk → Type 0} {A : Type 0} {Q : A → Disk → Type 0} where
  pub Triple-pure : (a : A) → ((d : Disk) → P d → Q a d) → Triple P I (pure a) Q
  unfolding pure
  Triple-pure a h = record { at = λ w p. (h w.disk p, refl) }

  pub Triple-gets : (f : Disk → A) → ((d : Disk) → P d → Q (f d) d) → Triple P I (gets f) Q
  unfolding gets
  Triple-gets f h = record { at = λ w p. (h w.disk p, refl) }

  pub Triple-if :
      (b : Bool) (m n : M A)
      → (b ≡ true → Triple P I m Q)
      → (b ≡ false → Triple P I n Q)
      → Triple P I (if b then m else n) Q
  Triple-if true m n k l = k refl
  Triple-if false m n k l = l refl

  pub Triple-pre :
      {P' : Disk → Type 0} (m : M A) → ((d : Disk) → P' d → P d) → Triple P I m Q → Triple P' I m Q
  Triple-pre m h t = record { at = λ w p. t.at w (h w.disk p) }

  -- A step behind a test that is known to pass.
  pub Triple-when :
      (b : Bool) {m : M A} (n : M A)
      → Triple P I m Q
      → Triple (λ d. (b ≡ true) × P d) I (if b then m else n) Q
  Triple-when true n t = record { at = λ w p. t.at w p.1 }
  Triple-when false n t = record { at = λ w p. cc p.0 }

  -- A fact that the disk's state carries.
  pub Triple-known : {X : Type 0} {m : M A} → (X → Triple P I m Q) → Triple (λ d. P d × X) I m Q
  Triple-known t = record { at = λ w p. (t p.1).at w p.0 }

  pub Triple-post :
      {I' : Disk → Type 0} {Q' : A → Disk → Type 0} (m : M A)
      → ((d : Disk) → I d → I' d)
      → ((a : A) (d : Disk) → Q a d → Q' a d)
      → Triple P I m Q
      → Triple P I' m Q'
  Triple-post m i q t = record { at = λ w p. Holds-post w.cut_at (m w).0 (m w).1 i q (t.at w p) }

  pub Triple-bind :
      {B : Type 0} {R : B → Disk → Type 0} (m : M A) (f : A → M B)
      → Triple P I m Q
      → ((a : A) → Triple (Q a) I (f a) R)
      → Triple P I (m >>= f) R
  unfolding ◌>>=◌
  Triple-bind m f t u = record { at = λ w p. Holds-bind w.cut_at (m w).0 (m w).1 f u (t.at w p) }

module _ {P I : Disk → Type 0} where
  pub Triple-effect :
      {Q : Unit {0} → Disk → Type 0} (f : Disk → Disk)
      → ((d : Disk) → P d → I d)
      → ((d : Disk) → P d → Q tt (f d))
      → Triple P I (effect f) Q
  unfolding effect
  Triple-effect {Q} f i q = record {
    at = λ w p. elim (Bool-cases (is_cut w.cut_at w.moment)) [
      | inl e ↦ rw e (i w.disk p, refl, cut-ne-none w.cut_at w.moment e)
      | inr e ↦ rw e (q w.disk p, refl)
    ];
  }

  pub Triple-now : {Q : ℕ → Disk → Type 0} → ((n : ℕ) (d : Disk) → P d → Q n d) → Triple P I now Q
  unfolding now
  Triple-now h = record { at = λ w p. (h w.moment w.disk p, refl) }

module _ {I : Disk → Type 0} {A : Type 0} where
  pub Keeps-pure : (a : A) → Keeps I (pure a)
  Keeps-pure a = record { triple = Triple-pure a (λ d h. h) }

  pub Keeps-gets : (f : Disk → A) → Keeps I (gets f)
  Keeps-gets f = record { triple = Triple-gets f (λ d h. h) }

  pub Keeps-if : (b : Bool) (m n : M A) → Keeps I m → Keeps I n → Keeps I (if b then m else n)
  Keeps-if true m n k l = k
  Keeps-if false m n k l = l

  pub Keeps-bind :
      {B : Type 0} (m : M A) (f : A → M B)
      → Keeps I m
      → ((a : A) → Keeps I (f a))
      → Keeps I (m >>= f)
  Keeps-bind m f k l = record { triple = Triple-bind m f k.triple (λ a. (l a).triple) }

module _ {I : Disk → Type 0} where
  pub Keeps-now : Keeps I now
  Keeps-now = record { triple = Triple-now (λ n d h. h) }

  pub Keeps-effect : (f : Disk → Disk) → ((d : Disk) → I d → I (f d)) → Keeps I (effect f)
  Keeps-effect f h = record { triple = Triple-effect f (λ d i. i) h }

pub ruleset keeps_rules = (Keeps-pure, Keeps-gets, Keeps-if, Keeps-now, Keeps-bind)

pub Keeps-relink :
    {I : Disk → Type 0}
    (on_links : (d : Disk) (l : String → Bool) → I d → I (record d { links = l }))
    → (f : Disk → String → Bool) → Keeps I (effect (λ d. record d { links = f d }))
Keeps-relink on_links f = Keeps-effect _ (λ d h. on_links d (f d) h)

-- Predicates that see only the marker and the snapshots.
pub record IsStable (I : Disk → Type 0) : Type 0 where
  pub on_files : (d : Disk) (f : Files) → I d → I (record d { files = f })
  pub on_links : (d : Disk) (l : String → Bool) → I d → I (record d { links = l })
  pub on_revisions : (d : Disk) (r : List Revision) → I d → I (record d { revisions = r })
  pub on_lists : (d : Disk) (s : String) → I d → I (record d { list_marker = s })

-- Such predicates that also hold where the marker is gone.
pub record IsSettling (I : Disk → Type 0) : Type 0 where
  pub stable : IsStable I
  pub on_absent : (d : Disk) → I d → I (record d { marker = absent })

-- ===== src/Apply/Action.antt =====
-- Programs that change the disk, on a machine whose power may go at any moment: the moments are
-- the changes of the disk, counted from 0, and at the moment of the cut nothing happens any more.
pub mod Triple
use mini_router.Prelude.{ℕ, ◌+◌, Bool, true, false, Option, none, some, ◌==◌, if◌then◌else◌}
use mini_router.Apply.Disk.{Disk}

pub record World : Type 0 where
  pub disk : Disk
  pub moment : ℕ
  pub cut_at : Option ℕ

pub data Out (A : Type 0) : Type 0 where
  ret : A → Out A
  cut : Out A

abbrev pub M : Type 0 → Type 0
M A = World → Out A × World

abbrev pub continue : {A B : Type 0} → Out A → World → (A → M B) → Out B × World
continue (ret a) w f = f a w
continue cut w f = (cut, w)

infixl 5 ◌>>=◌ ◌>>◌
unfoldable pub ◌>>=◌ : {A B : Type 0} → M A → (A → M B) → M B
◌>>=◌ m f w = let (r, w') = m w in continue r w' f

abbrev pub ◌>>◌ : {A B : Type 0} → M A → M B → M B
m >> n = m >>= λ _. n

unfoldable pub pure : {A : Type 0} → A → M A
pure a w = (ret a, w)

unfoldable pub gets : {A : Type 0} → (Disk → A) → M A
gets f w = (ret (f w.disk), w)

unfoldable pub now : M ℕ
now w = (ret w.moment, w)

is_cut : Option ℕ → ℕ → Bool
is_cut none n = false
is_cut (some k) n = k == n

-- One change of the disk.
unfoldable pub effect : (Disk → Disk) → M Unit
unfolding is_cut
effect f w =
    if is_cut w.cut_at w.moment
    then (cut, w)
    else (ret tt, record w { disk = f w.disk; moment = w.moment + 1 })

-- ===== src/Risk/Rating.antt =====
-- What the level of a risk says of its reasons and of the plan.
use Prim.Native.String.{◌++◌ as cat}
use text.Mathlib.Text.{◌==◌ as str_eq, starts_with}
use text.Mathlib.TextPositions.{starts_with-append}
use mini_router.Prelude.{
  ◌≡◌, refl, Bool, true, false, not, ◌&&◌, String, List, [], ◌∷◌, ◌++◌, if◌then◌else◌, ap, ◌∙◌, sym,
  Bool-cases, inl, inr, arith, IsIn, ◌⊎◌,
}
use mini_router.Apply.Archive.{named}
use mini_router.Apply.Plan.{Plan, dedup}
use mini_router.Risk.{
  Level, low, medium, high, RiskInfo, AdminPath, high_if, add_effects, at_least_medium, wan_restart,
  is_wan_service, own_path, effects_of, classify_risk, plan_risk, service_effect,
}

abbrev pub is_nil : List String → Bool
is_nil [] = true
is_nil (x ∷ l) = false

-- The level is high where there is a reason, and `base` where there is none.
abbrev IsRated : Level → RiskInfo → Type 0
IsRated base r = r.level ≡ (if is_nil r.reasons then base else high)

is_nil-snoc : (l : List String) (x : String) → is_nil (l ++ (x ∷ [])) ≡ false
is_nil-snoc [] x = refl
is_nil-snoc (y ∷ l) x = refl

high_if-IsRated :
    (base : Level) (b : Bool) (why : String) (r : RiskInfo)
    → IsRated base r
    → IsRated base (high_if b why r)
unfolding high_if
high_if-IsRated base true why r h = rw (is_nil-snoc r.reasons why) refl
high_if-IsRated base false why r h = h

wan_restart-IsRated :
    (base : Level) (l : List String) (r : RiskInfo)
    → IsRated base r
    → IsRated base (wan_restart l r)
unfolding wan_restart
wan_restart-IsRated base [] r h = h
wan_restart-IsRated base (s ∷ l) r h = elim (Bool-cases (is_wan_service s)) [
  | inl e ↦ rw e (high_if-IsRated base true _ r h)
  | inr e ↦ rw e (wan_restart-IsRated base l r h)
]

own_path-IsRated :
    (base : Level) (a : AdminPath) (l : List String) (r : RiskInfo)
    → IsRated base r
    → IsRated base (own_path a l r)
unfolding own_path
own_path-IsRated base a l r h =
    chosen _ _ _ _ (str_eq a.dev "tailscale0" && named "tailscale" l)
      (starts_with a.port "phy" && named "mr-hostapd" l)
  where
    chosen :
        (x y z : String) (t b c : Bool)
        → IsRated base
            (if b then high_if true x r else if c then high_if true y r else high_if t z r)
    chosen x y z t true c = high_if-IsRated base true _ r h
    chosen x y z t false true = high_if-IsRated base true _ r h
    chosen x y z t false false = high_if-IsRated base _ _ r h

-- what the effects alone make of the level
abbrev pub base_level : Plan → Level
base_level p = if is_nil (p.services ++ p.enable ++ p.disable) then low else medium

raised : Bool → Level → Level
raised true v = v
raised false v = at_least_medium v

raised-twice : (b : Bool) (v : Level) → raised b (at_least_medium v) ≡ at_least_medium v
unfolding raised
raised-twice true v = refl
raised-twice false low = refl
raised-twice false medium = refl
raised-twice false high = refl

add_effects-level :
    (text : String → String) (l : List String) (r : RiskInfo)
    → (add_effects text l r).level ≡ raised (is_nil l) r.level
unfolding add_effects raised
add_effects-level text [] r = refl
add_effects-level text (s ∷ l) r = add_effects-level text l _ ∙ raised-twice (is_nil l) r.level

add_effects-reasons :
    (text : String → String) (l : List String) (r : RiskInfo)
    → (add_effects text l r).reasons ≡ r.reasons
unfolding add_effects
add_effects-reasons text [] r = refl
add_effects-reasons text (s ∷ l) r = add_effects-reasons text l _

is_nil-dedup : (l : List String) → is_nil (dedup [] l) ≡ is_nil l
unfolding dedup
is_nil-dedup [] = refl
is_nil-dedup (x ∷ l) = refl

is_nil-append : (a b : List String) → is_nil (a ++ b) ≡ (is_nil a && is_nil b)
is_nil-append [] b = refl
is_nil-append (x ∷ a) b = refl

is_nil-three : (a b c : List String) → is_nil (a ++ b ++ c) ≡ (is_nil a && (is_nil b && is_nil c))
is_nil-three [] b c = is_nil-append b c
is_nil-three (x ∷ a) b c = refl

raised-base :
    (a b c : Bool) → raised c (raised (a && b) low) ≡ (if a && (b && c) then low else medium)
unfolding raised
raised-base true true true = refl
raised-base true true false = refl
raised-base true false true = refl
raised-base true false false = refl
raised-base false b true = refl
raised-base false b false = refl

effects_of-IsRated : (p : Plan) → IsRated (base_level p) (effects_of p)
unfolding effects_of
effects_of-IsRated p = with_rules p.firewall
  where
    start : RiskInfo
    start = record { level = low; reasons = []; effects = [] }

    first : RiskInfo
    first = add_effects service_effect (dedup [] (p.services ++ p.enable)) start

    second : RiskInfo
    second = add_effects (cat "停止 ") p.disable first

    both : List String
    both = p.services ++ p.enable

    level_eq : second.level ≡ base_level p
    level_eq =
        add_effects-level (cat "停止 ") p.disable first
        ∙ ap (raised (is_nil p.disable)) (
            add_effects-level service_effect (dedup [] both) start
            ∙ ap (λ b. raised b low) (is_nil-dedup both ∙ is_nil-append p.services p.enable))
        ∙ raised-base (is_nil p.services) (is_nil p.enable) (is_nil p.disable)
        ∙ sym (ap (λ b. if b then low else medium) (is_nil-three p.services p.enable p.disable))

    reasons_eq : second.reasons ≡ []
    reasons_eq =
        add_effects-reasons (cat "停止 ") p.disable first
        ∙ add_effects-reasons service_effect (dedup [] both) start

    plain : IsRated (base_level p) second
    plain = level_eq ∙ sym (ap (λ l. if is_nil l then base_level p else high) reasons_eq)

    with_rules :
        (b : Bool)
        → IsRated (base_level p) (
            if b
            then record second { effects = second.effects ++ ("防火墙规则原子替换（不断线）" ∷ []) }
            else second)
    with_rules true = plain
    with_rules false = plain

dedup-IsRated :
    (base v : Level) (l : List String)
    → v ≡ (if is_nil l then base else high)
    → v ≡ (if is_nil (dedup [] l) then base else high)
dedup-IsRated base v l h = rw (is_nil-dedup l) h

classify_risk-IsRated :
    (p : Plan) (changes : List String) (a : AdminPath) (ssh : Bool)
    → IsRated (base_level p) (classify_risk p changes a ssh)
unfolding classify_risk
classify_risk-IsRated p changes a ssh =
    let base = base_level p in
    dedup-IsRated base _ _ (
      high_if-IsRated base _ _ _ (
        own_path-IsRated base a _ _ (
          high_if-IsRated base _ _ _ (
            high_if-IsRated base _ _ _ (
              wan_restart-IsRated base p.services _ (
                high_if-IsRated base _ _ _ (
                  high_if-IsRated base _ _ _
                    (high_if-IsRated base _ _ _ (effects_of-IsRated p)))))))))

-- The risk is high exactly if it has a reason; without one it is low if the plan restarts, enables
-- and disables no service, and medium if it does.
pub plan_risk-level :
    (p : Plan) (changes : List String) (known : Bool) (a : AdminPath) (ssh : Bool)
    → (plan_risk p changes known a ssh).level ≡ (
        if is_nil (plan_risk p changes known a ssh).reasons
        then (if is_nil (p.services ++ p.enable ++ p.disable) then low else medium)
        else high)
unfolding plan_risk
plan_risk-level p changes known a ssh =
    high_if-IsRated (base_level p) (not known) _ _ (classify_risk-IsRated p changes a ssh)

-- what is high stays high
high_if-high :
    (b : Bool) (why : String) (r : RiskInfo) → r.level ≡ high → (high_if b why r).level ≡ high
unfolding high_if
high_if-high true why r h = refl
high_if-high false why r h = h

raises : (why : String) (r : RiskInfo) → (high_if true why r).level ≡ high
unfolding high_if
raises why r = refl

own_path-high :
    (a : AdminPath) (l : List String) (r : RiskInfo)
    → r.level ≡ high
    → (own_path a l r).level ≡ high
unfolding own_path
own_path-high a l r h =
    chosen _ _ _ _ (str_eq a.dev "tailscale0" && named "tailscale" l)
      (starts_with a.port "phy" && named "mr-hostapd" l)
  where
    chosen :
        (x y z : String) (t b c : Bool)
        → (if b then high_if true x r else if c then high_if true y r else high_if t z r).level
          ≡ high
    chosen x y z t true c = high_if-high true _ r h
    chosen x y z t false true = high_if-high true _ r h
    chosen x y z t false false = high_if-high _ _ r h

-- the services that hold a WAN: its PPPoE session, its DHCP client, or dhcpcd
pub data DropsWan : String → Type 0 where
  pppoe : (wan : String) → DropsWan (cat "mr-pppoe." wan)
  udhcpc : (wan : String) → DropsWan (cat "mr-udhcpc." wan)
  dhcpcd : DropsWan "mr-dhcpcd"

is_wan_service-DropsWan : (s : String) → DropsWan s → is_wan_service s ≡ true
is_wan_service-DropsWan s (pppoe wan) = rw (starts_with-append "mr-pppoe." wan) refl
is_wan_service-DropsWan s (udhcpc wan) =
    let found = starts_with-append "mr-udhcpc." wan in ground (arith, found)
is_wan_service-DropsWan s dhcpcd = refl

wan_restart-high :
    (s : String) (l : List String) (r : RiskInfo)
    → is_wan_service s ≡ true
    → IsIn s l
    → (wan_restart l r).level ≡ high
unfolding wan_restart
wan_restart-high s [] r wan h = absurd h
wan_restart-high s (t ∷ l) r wan h = elim (Bool-cases (is_wan_service t)) [
  | inl e ↦ rw e (raises _ r)
  | inr e ↦ rw e (wan_restart-high s l r wan (later h e))
]
  where
    later : (t ≡ s) ⊎ IsIn s l → is_wan_service t ≡ false → IsIn s l
    later (inl k) e = absurd (differ k)
      where
        differ : t ≡ s → ⊥
        differ k = cc
    later (inr k) e = k

-- A plan that restarts the PPPoE session of a WAN, the DHCP client of a WAN or dhcpcd is of high
-- risk, whatever the changes of the config and the administrator's path are.
pub plan_risk-wan :
    (p : Plan) (changes : List String) (known : Bool) (a : AdminPath) (ssh : Bool) (s : String)
    → DropsWan s
    → IsIn s p.services
    → (plan_risk p changes known a ssh).level ≡ high
unfolding plan_risk classify_risk
plan_risk-wan p changes known a ssh s wan h = high_if-high _ _ _ (
    high_if-high _ _ _ (
      own_path-high a _ _ (
        high_if-high _ _ _ (
          high_if-high _ _ _ (wan_restart-high s p.services _ (is_wan_service-DropsWan s wan) h)))))

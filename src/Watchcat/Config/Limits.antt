-- ===== src/Watchcat/Config/Limits.antt =====
-- Which settings of the watchcat pass, once the defaults are filled in.
use mini_router.Prelude.{
  ◌*◌, ◌≤◌, ◌≡◌, Bool, true, String, List, if◌then◌else◌, ◌==◌, length, ◌⊎◌, IsIn,
}
use mini_router.Watchcat.Config.{WatchcatConf}

-- each of the targets is an IPv4 address
abbrev pub AllIp4 : (String → Bool) → List String → Type 0
AllIp4 is_ip4 l = (t : String) → IsIn t l → is_ip4 t ≡ true

-- the settings that may be written, a time that is left out as 0
abbrev pub MayWrite : Bool → List String → (String → Bool) → WatchcatConf → Type 0
MayWrite router_mode wan is_ip4 w =
    (router_mode ≡ true)
    × ((first : String) × IsIn first wan)
    × ((w.after ≡ 0) ⊎ ((3 ≤ w.after) × (w.after ≤ 240)))
    × (w.reboot_hours ≤ 7 * 24)
    × (length w.targets ≤ 4)
    × AllIp4 is_ip4 w.targets

module _ (router_mode : Bool) (wan : List String) (is_ip4 : String → Bool) (w : WatchcatConf) where
  filled : WatchcatConf
  filled = record w {
    after = if w.after == 0 then 10 else w.after;
    reboot_hours = if w.reboot_hours == 0 then 6 else w.reboot_hours;
  }

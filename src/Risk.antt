-- ===== src/Risk.antt =====
-- How risky a change is: serviceEffect, classifyRisk and planRisk of mr/risk.go. The diff of the
-- configs and the administrator's path come from elsewhere and are arguments.
pub mod Rating
pub mod Tests
use Prim.Native.String.{◌++◌ as cat}
use text.Mathlib.Text.{◌==◌ as str_eq, starts_with}
use mini_router.Prelude.{
  Bool, true, false, not, ◌&&◌, ◌||◌, String, List, [], ◌∷◌, ◌++◌, if◌then◌else◌,
}
use mini_router.Apply.Archive.{named}
use mini_router.Apply.Plan.{Plan, dedup}

pub data Level : Type 0 where
  low medium high : Level

pub record RiskInfo : Type 0 where
  pub level : Level
  pub reasons : List String
  pub effects : List String

pub record AdminPath : Type 0 where
  pub addr : String
  pub dev : String
  pub port : String

-- strings.TrimPrefix
abbrev pub trim_prefix : String → String → String
trim_prefix String.[] s = s
trim_prefix (String.◌∷◌ c p) String.[] = String.[]
trim_prefix (String.◌∷◌ c p) (String.◌∷◌ d s) = trim_prefix p s

abbrev pub after_prefix : String → String → String
after_prefix p s = if starts_with s p then trim_prefix p s else s

-- serviceEffect
unfoldable pub service_effect : String → String
service_effect s =
    if str_eq s "mr-hostapd"
    then "WiFi 重启：无线设备断开几秒后自动重连"
    else if starts_with s "mr-pppoe."
    then cat "WAN " (cat (after_prefix "mr-pppoe." s) " 重新拨号：断网约 5–10 秒，公网地址可能改变")
    else if starts_with s "mr-udhcpc." || str_eq s "mr-dhcpcd"
    then "WAN 重新获取地址：短暂断网"
    else if str_eq s "dnsmasq" || str_eq s "mr-parental-dns"
    then "DNS / DHCP 重启：解析中断约 1 秒"
    else if str_eq s "mr-proxy" || str_eq s "mr-proxy-dns"
    then "代理重启：走代理的连接会断开重连"
    else if str_eq s "tailscale"
    then "Tailscale 重启：远程访问中断几秒"
    else if str_eq s "dropbear"
    then "SSH 服务重启"
    else if str_eq s "mr-panel"
    then "网页管理服务重启"
    else if str_eq s "mr-edge"
    then "HTTPS 反向代理重启：经它的连接断开重连"
    else if str_eq s "mr-network"
    then "网络设置原地重新应用（通常不断线）"
    else if str_eq s "hostname" || str_eq s "sysctl"
    then "系统参数生效（不断线）"
    else cat "重启 " s

-- the closure `high`, called under a condition
unfoldable pub high_if : Bool → String → RiskInfo → RiskInfo
high_if true why r = record r { level = high; reasons = r.reasons ++ (why ∷ []) }
high_if false why r = r

abbrev pub at_least_medium : Level → Level
at_least_medium low = medium
at_least_medium medium = medium
at_least_medium high = high

unfoldable pub add_effects : (String → String) → List String → RiskInfo → RiskInfo
add_effects text [] r = r
add_effects text (s ∷ l) r =
    add_effects text l
      (record r { level = at_least_medium r.level; effects = r.effects ++ (text s ∷ []) })

-- a change is a mark, a space and the path; the closure `touched`
abbrev pub path_of : String → String
path_of String.[] = String.[]
path_of (String.◌∷◌ c String.[]) = String.[]
path_of (String.◌∷◌ c (String.◌∷◌ d s)) = s

unfoldable pub touched : List String → String → Bool
touched [] prefix = false
touched (l ∷ changes) prefix =
    let rest = touched changes prefix in
    starts_with (path_of l) (cat prefix ".")
    || starts_with (path_of l) (cat prefix "[")
    || starts_with (path_of l) (cat prefix ":")
    || rest

abbrev pub is_wan_service : String → Bool
is_wan_service s = starts_with s "mr-pppoe." || starts_with s "mr-udhcpc." || str_eq s "mr-dhcpcd"

-- the first service that drops the WAN
unfoldable pub wan_restart : List String → RiskInfo → RiskInfo
wan_restart [] r = r
wan_restart (s ∷ l) r =
    let rest = wan_restart l r in
    if is_wan_service s then high_if true (cat "WAN 会断线重连（" (cat s "）")) r else rest

-- the administrator's own path
unfoldable pub own_path : AdminPath → List String → RiskInfo → RiskInfo
own_path a restarts r =
    if str_eq a.dev "tailscale0" && named "tailscale" restarts
    then high_if true "你正通过 Tailscale 连接，而 Tailscale 会重启" r
    else if starts_with a.port "phy" && named "mr-hostapd" restarts
    then high_if true (cat "你正通过 WiFi（" (cat a.port "）连接，而 WiFi 会重启")) r
    else high_if
        (starts_with a.dev "pppoe-"
          && named (cat "mr-pppoe." (after_prefix "pppoe-" a.dev)) restarts)
        (cat "你正从 WAN（" (cat a.dev "）连接，而这条线路会重拨")) r

unfoldable pub effects_of : Plan → RiskInfo
effects_of p =
    let start : RiskInfo = record { level = low; reasons = []; effects = [] } in
    let r = add_effects service_effect (dedup [] (p.services ++ p.enable)) start in
    let r = add_effects (cat "停止 ") p.disable r in
    if p.firewall then record r { effects = r.effects ++ ("防火墙规则原子替换（不断线）" ∷ []) } else r

-- classifyRisk; `ssh` is whether SSH_CLIENT is set
unfoldable pub classify_risk : Plan → List String → AdminPath → Bool → RiskInfo
classify_risk p changes a ssh =
    let t = touched changes in
    let restarts = p.services ++ p.enable ++ p.disable in
    let r = effects_of p in
    let r = high_if (t "guard") "改动了底线（guard）" r in
    let r = high_if (t "lan" || t "networks") "LAN 地址或网口改变：可能需要到新地址访问" r in
    let r = high_if (t "wan" || t "multiwan" || t "policy_routes") "WAN 设置改变" r in
    let r = wan_restart p.services r in
    let inbound =
      t "firewall.open" || t "services.ssh" || t "services.panel" || t "services.tailscale" in
    let r = high_if inbound "改动了路由器的入站规则或管理通道（SSH / 网页 / Tailscale）" r in
    let r = high_if (t "services.edge") "改动了 HTTPS 反向代理（对外开放的站点 / 端口）" r in
    let r = own_path a restarts r in
    let r = high_if (ssh && named "dropbear" restarts) "你正在用 SSH，而 SSH 服务会重启" r in
    record r { reasons = dedup [] r.reasons }

-- planRisk; `known` is whether the applied config is on record
unfoldable pub plan_risk : Plan → List String → Bool → AdminPath → Bool → RiskInfo
plan_risk p changes known a ssh = high_if (not known) "无法判断改动了什么" (classify_risk p changes a ssh)

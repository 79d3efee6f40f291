-- ===== src/Risk/Tests.antt =====
-- A change that redials the WAN.
use mini_router.Prelude.{◌≡◌, refl, true, false, [], ◌∷◌, if◌then◌else◌, inl}
use mini_router.Apply.Plan.{Plan}
use mini_router.Risk.{low, medium, high, AdminPath, plan_risk, touched}
use mini_router.Risk.Rating.{plan_risk-level, plan_risk-wan, is_nil, pppoe}

abbrev redial_plan : Plan
redial_plan = record {
  changed = [];
  remove = [];
  services = "mr-pppoe.wan" ∷ [];
  firewall = false;
  enable = [];
  disable = [];
}

abbrev local_admin : AdminPath
local_admin = record { addr = "192.168.1.10"; dev = "br-lan"; port = "eth1" }

plan_risk-level_example : (plan_risk redial_plan [] true local_admin false).level ≡ (
    if is_nil (plan_risk redial_plan [] true local_admin false).reasons
    then (if is_nil ("mr-pppoe.wan" ∷ []) then low else medium)
    else high)
plan_risk-level_example = plan_risk-level redial_plan [] true local_admin false

plan_risk-wan_example : (plan_risk redial_plan [] true local_admin false).level ≡ high
plan_risk-wan_example =
    plan_risk-wan redial_plan [] true local_admin false "mr-pppoe.wan" (pppoe "wan") (inl refl)

lan_touched : touched ("~ lan.ip: 192.168.1.1 → 192.168.2.1" ∷ []) "lan" ≡ true
unfolding touched
lan_touched = refl

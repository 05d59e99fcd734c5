-- ===== src/Upstream.antt =====
-- pkg/upstream/cluster/host.go: hosts, with their health flags, and sets of hosts. A host that the code
-- shares by a pointer is a value here, which a component's state holds once.
pub mod LoadBalancer
pub mod HealthCheck
pub mod Cluster
pub mod Resources
pub mod Subsets
mod Tests
use psh_mosn.Base.{ℕ, Bool, true, false, not, ◌&&◌, List, [], ◌∷◌}
use psh_mosn.Base.Strings.{GoString}

-- healthFlags: one Boolean for each bit that has a name.
pub record Host : Type 0 where
  pub hostname : GoString
  pub address_string : GoString
  pub weight : ℕ
  pub used : Bool
  pub active_hc_flag : Bool
  pub outlier_check_flag : Bool

pub data HealthFlag : Type 0 where
  failed_active_hc failed_outlier_check : HealthFlag

unfoldable pub clear_health_flag : HealthFlag → Host → Host
clear_health_flag failed_active_hc h = record h { active_hc_flag = false }
clear_health_flag failed_outlier_check h = record h { outlier_check_flag = false }

unfoldable pub contain_health_flag : HealthFlag → Host → Bool
contain_health_flag failed_active_hc h = h.active_hc_flag
contain_health_flag failed_outlier_check h = h.outlier_check_flag

unfoldable pub set_health_flag : HealthFlag → Host → Host
set_health_flag failed_active_hc h = record h { active_hc_flag = true }
set_health_flag failed_outlier_check h = record h { outlier_check_flag = true }

unfoldable pub health : Host → Bool
health h = not h.active_hc_flag && not h.outlier_check_flag

unfoldable pub set_weight : ℕ → Host → Host
set_weight w h = record h { weight = w }

pub record HostSet : Type 0 where
  pub priority : ℕ
  pub hosts : List Host
  pub healthy_hosts : List Host
  pub hosts_per_locality : List (List Host)
  pub healthy_hosts_per_locality : List (List Host)

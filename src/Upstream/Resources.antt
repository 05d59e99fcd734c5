-- ===== src/Upstream/Resources.antt =====
-- pkg/upstream/cluster/resourcemanager.go: the counted resources of a cluster. An int64 counter is the
-- number below 2^64 that has its bits, so that one from 2^63 on is negative.
use psh_mosn.Base.{ℕ, ◌+◌, ◌%◌, Bool, true, List, [], ◌∷◌, ltb, leb, if◌then◌else◌}

pub record Resource : Type 0 where
  pub current : ℕ
  pub max : ℕ

unfoldable pub can_create : Resource → Bool
can_create r = if leb 9223372036854775808 r.current then true else ltb r.current r.max

unfoldable pub increase : Resource → Resource
increase r = record r { current = (r.current + 1) % 18446744073709551616 }

unfoldable pub decrease : Resource → Resource
decrease r = record r { current = (r.current + 18446744073709551615) % 18446744073709551616 }

-- The first of the configured thresholds, which are uint32.
pub record Thresholds : Type 0 where
  pub max_connections : ℕ
  pub max_pending_requests : ℕ
  pub max_requests : ℕ
  pub max_retries : ℕ

pub record ResourceManager : Type 0 where
  pub connections : Resource
  pub pending_requests : Resource
  pub requests : Resource
  pub retries : Resource

abbrev unused : ℕ → Resource
unused max = record { current = 0; max = max }

unfoldable pub new_resource_manager : List Thresholds → ResourceManager
new_resource_manager [] = record {
  connections = unused 10240;
  pending_requests = unused 10240;
  requests = unused 10240;
  retries = unused 3;
}
new_resource_manager (t ∷ ts) = record {
  connections = unused t.max_connections;
  pending_requests = unused t.max_pending_requests;
  requests = unused t.max_requests;
  retries = unused t.max_retries;
}

-- ===== src/Ipam/Usage.antt =====
-- pkg/ipam/types/usage.go.
use hybridnet.Base.{add_u32, is_empty, if◌then◌else◌}
use hybridnet.Ipam.Types.{Usage}

-- `new(Usage)`
abbrev pub no_usage : Usage
no_usage = record { total = 0; used = 0; available = 0; last_allocation = "" }

-- `Add`: `uint32` sums, which wrap.
unfoldable pub add_usage : Usage → Usage → Usage
add_usage u v = record {
  total = add_u32 u.total v.total;
  used = add_u32 u.used v.used;
  available = add_u32 u.available v.available;
  last_allocation = if is_empty u.last_allocation then v.last_allocation else u.last_allocation;
}

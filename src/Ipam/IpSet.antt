-- ===== src/Ipam/IpSet.antt =====
-- pkg/ipam/types/ip.go, `IPSet`: the addresses in use, by their text. `Has`, `Add`, `Delete`, `Get` and
-- `Count` are the map's own operations.
pub mod Keys
use hybridnet.Base.{ℕ, Bool, [], String, Option, none, some, length, is_empty, if◌then◌else◌}
use hybridnet.Base.Dict
use hybridnet.Ipam.Types.{IpInfo, IpSet}

abbrev pub new_ip_set : IpSet
new_ip_set = []

abbrev pub has : String → IpSet → Bool
has ip s = Dict.has ip s

abbrev pub add : String → IpInfo → IpSet → IpSet
add ip content s = Dict.insert ip content s

-- A field is written only by a text that is not empty.
unfoldable pub updated : String → String → String → IpInfo → IpInfo
updated pod_name pod_namespace status c = record c {
  pod_name = if is_empty pod_name then c.pod_name else pod_name;
  pod_namespace = if is_empty pod_namespace then c.pod_namespace else pod_namespace;
  status = if is_empty status then c.status else status;
}

-- `Update`; an address that is not there stays away.
unfoldable pub update : String → String → String → String → IpSet → IpSet
unfolding updated
update ip pod_name pod_namespace status s = elim (Dict.lookup ip s) [
  | none ↦ s
  | some c ↦ Dict.insert ip (updated pod_name pod_namespace status c) s
]

abbrev pub delete : String → IpSet → IpSet
delete ip s = Dict.delete ip s

-- nil, where the address is not there, is `none`.
abbrev pub get : String → IpSet → Option IpInfo
get ip s = Dict.lookup ip s

abbrev pub count : IpSet → ℕ
count s = length s

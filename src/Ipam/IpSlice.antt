-- ===== src/Ipam/IpSlice.antt =====
-- pkg/ipam/types/ip.go, `IPSlice`: the allocatable addresses of a subnet and a round-robin cursor.
pub mod Cursor
use hybridnet.Base.{
  ℕ, ◌+◌, ◌-◌, ◌%◌, Bool, List, [], ◌∷◌, ◌++◌, Option, none, some, String, ℤ, pos, negsuc, neg_ℕ,
  length, get_elem?, ◌==◌, if◌then◌else◌,
}
use hybridnet.Ipam.Types.{IpSlice}

-- `NewIPSlice`: the cursor stands before the first address.
abbrev pub new_ip_slice : IpSlice
new_ip_slice = record { ips = []; ip_count = 0; ip_index = negsuc 0 }

unfoldable pub add : String → Bool → IpSlice → IpSlice
add ip is_default s =
    let ips : List String = s.ips ++ ip ∷ [] in
    record {
      ips = ips;
      ip_count = length ips;
      ip_index = if is_default then pos (length ips - 1) else s.ip_index;
    }

abbrev pub count : IpSlice → ℕ
count s = s.ip_count

-- `(i + 1) % n` on Go's `int`, which rounds to 0.
unfoldable pub next_index : ℤ → ℕ → ℤ
next_index (pos i) n = pos ((i + 1) % n)
next_index (negsuc i) n = neg_ℕ (i % n)

-- `xs[i]`; `none` is the panic of an index out of range.
unfoldable pub index : {A : Type 0} → List A → ℤ → Option A
index xs (pos i) = get_elem? xs i
index xs (negsuc i) = none

-- `Next` moves the cursor and reads there. `none` is a panic: an empty slice divides by 0.
unfoldable pub next : IpSlice → Option (IpSlice × String)
unfolding index next_index
next s =
    let i = next_index s.ip_index s.ip_count in
    if s.ip_count == 0
    then none
    else elim (index s.ips i) [ none ↦ none | some ip ↦ some (record s { ip_index = i }, ip) ]

-- `Current`; a panic is `none`.
unfoldable pub current : IpSlice → Option String
unfolding index
current s = elim s.ip_index [ negsuc _ ↦ some "" | pos i ↦ get_elem? s.ips i ]

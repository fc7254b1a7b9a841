-- ===== src/Ipam/IpSlice/Cursor.antt =====
-- The cursor of an address slice (`IPSlice.Next` of pkg/ipam/types/ip.go).
use native.Mathlib.Nat.{mod-add-mod, mod-lt, zero-mod}
use hybridnet.Base.{
  ℕ, suc, ◌+◌, ◌%◌, ◌≤◌, ◌<◌, ◌≡◌, refl, ap, some, String, ℤ, pos, negsuc, length, get_elem?,
  get_elem?-lt, arith, length-append, ◌∷◌, [], Bool, true, false,
}
use hybridnet.Ipam.Types.{IpSlice}
use hybridnet.Ipam.IpSlice.{add, next_index, next, index}

-- Before the first address, or at an address.
abbrev pub IsCursor : ℤ → ℕ → Type 0
IsCursor (pos i) n = i < n
IsCursor (negsuc k) n = k ≡ 0

pub IsCursor-mono : (i : ℤ) {m n : ℕ} → IsCursor i m → m ≤ n → IsCursor i n
IsCursor-mono (pos i) h le = omega arith
IsCursor-mono (negsuc k) h le = h

-- What `Add` keeps: the count is the length, and the cursor is one of the list.
pub record IsValid (s : IpSlice) : Type 0 where
  pub counted : s.ip_count ≡ length s.ips
  pub cursor : IsCursor s.ip_index s.ip_count

-- The place at which the next `Next` reads, before it is reduced by the count.
abbrev pub slot : ℤ → ℕ
slot (pos i) = suc i
slot (negsuc k) = 0

pub next_index-slot : (i : ℤ) (n : ℕ) → IsCursor i n → 0 < n → next_index i n ≡ pos (slot i % n)
unfolding next_index
next_index-slot (pos i) n h p = ap pos (grind arith)
next_index-slot (negsuc k) n h p = rw (h, zero-mod n) refl

pub mod-suc-mod : (k n j : ℕ) → (suc (k % n) + j) % n ≡ (k + suc j) % n
mod-suc-mod k n j =
    let e : suc (k % n) + j ≡ k % n + suc j = omega arith in rw e (mod-add-mod k n (suc j))

-- On a slice that holds an address `Next` does not panic: it moves one place on, round the slice,
-- and gives the address there.
pub next_lem :
    (s : IpSlice)
    → IsValid s
    → 0 < s.ip_count
    → (ip : String) × (get_elem? s.ips (slot s.ip_index % s.ip_count) ≡ some ip)
      × (next s ≡ some (record s { ip_index = pos (slot s.ip_index % s.ip_count) }, ip))
unfolding next index
next_lem s v p =
    let i = slot s.ip_index % s.ip_count in
    let (ip, e) = get_elem?-lt s.ips i (omega (arith, v.counted, mod-lt (slot s.ip_index) p)) in
    (ip, e, ground (arith, e, next_index-slot s.ip_index s.ip_count v.cursor p))

-- `Add` keeps the slice well formed.
pub add-IsValid : (ip : String) (d : Bool) (s : IpSlice) → IsValid s → IsValid (add ip d s)
unfolding add
add-IsValid ip true s v = record {
  counted = refl;
  cursor = omega (arith, length-append s.ips (ip ∷ []));
}
add-IsValid ip false s v = record {
  counted = refl;
  cursor =
      IsCursor-mono s.ip_index v.cursor (omega (arith, v.counted, length-append s.ips (ip ∷ [])));
}

-- ===== src/Ipam/Sync/Scan.antt =====
-- The loop of `Sync` over the addresses from `Start` to `End` (pkg/ipam/types/subnet.go).
use native.Mathlib.Decide.{dec_lt}
use hybridnet.Base.{
  ℕ, zero, suc, ◌+◌, ◌≤◌, ◌<◌, ◌≡◌, ◌↔◌, refl, sym, subst, ◌∙◌, inl, inr, ◌||◌, Bool, true, false,
  List, [], ◌∷◌, some, String, pos, ltb_ℤ, contains, contains-append, eq_iff, Distinct,
  append-Distinct, Bool-cases, arith,
}
use hybridnet.Net.{Ip, NetIp, AddressLib, short, equal}
use hybridnet.Ipam.Types.{Subnet, IpSlice}
use hybridnet.Ipam.IpSlice
use hybridnet.Ipam.IpSlice.Cursor
use hybridnet.Ipam.Subnet.{contains_addr, is_reserved_ip}
use hybridnet.Ipam.Sync.{visit, scan}

abbrev pub size_of : Ip → ℕ
size_of a = (short a).size

abbrev pub num_of : Ip → ℕ
num_of a = (short a).num

-- The documented behaviour of the address library on the addresses of one family from `first` to
-- `last`: `NextIP` counts, `Cmp` compares, the two forms of an address are one to `Cmp` and to
-- `String`, and the texts of two addresses of the range differ.
pub record Counts (lib : AddressLib) (size first last : ℕ) : Type 0 where
  pub steps :
      (a : Ip)
      → size_of a ≡ size
      → first ≤ num_of a
      → num_of a ≤ last
      → (b : Ip) × (lib.next_ip (some a) ≡ some b)
        × (size_of b ≡ size)
        × (num_of b ≡ suc (num_of a))
  pub above :
      (a b : Ip)
      → size_of a ≡ size
      → size_of b ≡ size
      → (ltb_ℤ (pos 0) (lib.cmp (some a) (some b)) ≡ true) ↔ (num_of b < num_of a)
  pub below :
      (a b : Ip)
      → size_of a ≡ size
      → size_of b ≡ size
      → (ltb_ℤ (lib.cmp (some a) (some b)) (pos 0) ≡ true) ↔ (num_of a < num_of b)
  pub cmp_short :
      (a b : Ip) (x : NetIp) → short a ≡ short b → lib.cmp (some a) x ≡ lib.cmp (some b) x
  pub text_short : (a b : Ip) → short a ≡ short b → lib.ip_string (some a) ≡ lib.ip_string (some b)
  pub texts :
      (a b : Ip)
      → size_of a ≡ size
      → size_of b ≡ size
      → (first ≤ num_of a) × (num_of a ≤ last)
      → (first ≤ num_of b) × (num_of b ≤ last)
      → lib.ip_string (some a) ≡ lib.ip_string (some b)
      → num_of a ≡ num_of b

module _ (lib : AddressLib) (s : Subnet) (size first last : ℕ) where
  -- One round of the loop.
  scan_stop :
      (fuel : ℕ) (i : NetIp) (slice : IpSlice)
      → ltb_ℤ (pos 0) (lib.cmp i s.end) ≡ true
      → scan lib (suc fuel) s i slice ≡ some slice
  unfolding scan
  scan_stop fuel i slice h = rw (h, scan) refl

  scan_step :
      (fuel : ℕ) (i : NetIp) (slice : IpSlice)
      → ltb_ℤ (pos 0) (lib.cmp i s.end) ≡ false
      → scan lib (suc fuel) s i slice ≡ scan lib fuel s (lib.next_ip i) (visit lib s i slice)
  unfolding scan
  scan_step fuel i slice h = rw (h, scan) refl

  -- The text of an address of the range, contained in the subnet and not reserved.
  pub record Source (upto : ℕ) (k : String) : Type 0 where
    pub addr : Ip
    pub in_family : size_of addr ≡ size
    pub not_before : first ≤ num_of addr
    pub met : num_of addr < upto
    pub spelled : lib.ip_string (some addr) ≡ k
    pub inside : contains_addr lib s (some addr) ≡ true
    pub open_ : contains k s.reserved_list ≡ false

  -- An address of the range, which is listed if it is contained in the subnet and not reserved.
  pub record Met (ips : List String) (m : ℕ) : Type 0 where
    pub addr : Ip
    pub in_family : size_of addr ≡ size
    pub is_it : num_of addr ≡ m
    pub listed :
        contains_addr lib s (some addr) ≡ true
        → contains (lib.ip_string (some addr)) s.reserved_list
            || contains (lib.ip_string (some addr)) ips
          ≡ true

  -- The slice when the addresses below `upto` are met.
  pub record Scanned (upto : ℕ) (slice : IpSlice) : Type 0 where
    pub valid : Cursor.IsValid slice
    pub distinct : Distinct slice.ips
    pub sound : (k : String) → contains k slice.ips ≡ true → Source upto k
    pub complete : (m : ℕ) → first ≤ m → m < upto → Met slice.ips m

  Source-mono : {m n : ℕ} (k : String) → m ≤ n → Source m k → Source n k
  Source-mono k h r = record {
    addr = r.addr;
    in_family = r.in_family;
    not_before = r.not_before;
    met = omega arith;
    spelled = r.spelled;
    inside = r.inside;
    open_ = r.open_;
  }

  here :
      (a : Ip)
      → size_of a ≡ size
      → first ≤ num_of a
      → contains_addr lib s (some a) ≡ true
      → contains (lib.ip_string (some a)) s.reserved_list ≡ false
      → Source (suc (num_of a)) (lib.ip_string (some a))
  here a f h inside free = record {
    addr = a;
    in_family = f;
    not_before = h;
    met = omega arith;
    spelled = refl;
    inside = inside;
    open_ = free;
  }

  -- A longer list keeps what is listed.
  Met-mono :
      (xs ys : List String) (m : ℕ)
      → ((k : String) → contains k xs ≡ true → contains k ys ≡ true)
      → Met xs m
      → Met ys m
  Met-mono xs ys m h r = record {
    addr = r.addr;
    in_family = r.in_family;
    is_it = r.is_it;
    listed = λ inside. ground (arith, r.listed inside, h (lib.ip_string (some r.addr)));
  }

  module _ (c : Counts lib size first last) where
    -- The text of the address that is met now is new.
    new_text :
        (a : Ip) (slice : IpSlice)
        → size_of a ≡ size
        → (first ≤ num_of a) × (num_of a ≤ last)
        → Scanned (num_of a) slice
        → contains (lib.ip_string (some a)) slice.ips ≡ false
    new_text a slice f h v = elim (Bool-cases (contains (lib.ip_string (some a)) slice.ips)) [
      | inr fresh ↦ fresh
      | inl old ↦
          let r = v.sound (lib.ip_string (some a)) old in
          absurd (
            omega (
              arith,
              r.met,
              c.texts r.addr a r.in_family f (r.not_before, omega arith) h r.spelled,
            ))
    ]

    grow :
        (a : Ip) (slice next : IpSlice)
        → size_of a ≡ size
        → Scanned (num_of a) slice
        → Cursor.IsValid next
        → Distinct next.ips
        → ((k : String) → contains k slice.ips ≡ true → contains k next.ips ≡ true)
        → ((k : String) → contains k next.ips ≡ true → Source (suc (num_of a)) k)
        → (contains_addr lib s (some a) ≡ true
            → contains (lib.ip_string (some a)) s.reserved_list
                || contains (lib.ip_string (some a)) next.ips
              ≡ true)
        → Scanned (suc (num_of a)) next
    grow a slice next f v valid distinct more sound listed = record {
      valid = valid;
      distinct = distinct;
      sound = sound;
      complete = λ m le lt. elim (dec_lt m (num_of a)) [
        | yes before ↦ Met-mono slice.ips next.ips m more (v.complete m le before)
        | no now ↦ record { addr = a; in_family = f; is_it = omega arith; listed = listed }
      ];
    }

    -- The slice stays as it is at an address that is reserved or not contained.
    skip :
        (a : Ip) (slice : IpSlice)
        → size_of a ≡ size
        → Scanned (num_of a) slice
        → (contains_addr lib s (some a) ≡ true
            → contains (lib.ip_string (some a)) s.reserved_list
                || contains (lib.ip_string (some a)) slice.ips
              ≡ true)
        → Scanned (suc (num_of a)) slice
    skip a slice f v =
        grow a slice slice f v v.valid v.distinct (λ k h. h)
          (λ k h. Source-mono k (omega arith) (v.sound k h))

    list_it :
        (a : Ip) (slice : IpSlice)
        → size_of a ≡ size
        → (first ≤ num_of a) × (num_of a ≤ last)
        → Scanned (num_of a) slice
        → contains_addr lib s (some a) ≡ true
        → contains (lib.ip_string (some a)) s.reserved_list ≡ false
        → (d : Bool) → Scanned (suc (num_of a)) (IpSlice.add (lib.ip_string (some a)) d slice)
    unfolding IpSlice.add contains
    list_it a slice f h v inside free d =
        let t = lib.ip_string (some a) in
        let grown = λ (k : String). contains-append k slice.ips (t ∷ []) in
        let source = here a f h.0 inside free in
        grow a slice (IpSlice.add t d slice) f v (Cursor.add-IsValid t d slice v.valid)
          (append-Distinct slice.ips (t ∷ []) v.distinct (refl, tt)
            (λ k m. ground (arith, m, eq_iff t k, new_text a slice f h v)))
          (λ k m. ground (arith, m, grown k))
          (λ k m. elim (Bool-cases (contains k slice.ips)) [
            | inl old ↦ Source-mono k (omega arith) (v.sound k old)
            | inr new ↦
                let q : t ≡ k = ground (arith, m, grown k, eq_iff t k) in
                subst (Source (suc (num_of a))) q source
          ])
          (λ _. ground (arith, grown t, eq_iff t t))

    visit-Scanned :
        (a : Ip) (slice : IpSlice)
        → size_of a ≡ size
        → (first ≤ num_of a) × (num_of a ≤ last)
        → Scanned (num_of a) slice
        → Scanned (suc (num_of a)) (visit lib s (some a) slice)
    unfolding visit
    visit-Scanned a slice f h v = elim (Bool-cases (contains_addr lib s (some a))) [
      | inr out ↦ rw (out, visit) (skip a slice f v (λ in_. cc))
      | inl inside ↦ elim (Bool-cases (contains (lib.ip_string (some a)) s.reserved_list)) [
        | inl reserved ↦
            rw (inside, visit, is_reserved_ip, reserved)
              (skip a slice f v (λ _. ground (arith, reserved)))
        | inr free ↦
            rw (inside, visit, is_reserved_ip, free)
              (list_it a slice f h v inside free (equal (some a) s.last_allocated_ip))
      ]
    ]

    not_past :
        (a e : Ip)
        → (ltb_ℤ (pos 0) (lib.cmp (some a) (some e)) ≡ true) ↔ (num_of e < num_of a)
        → ltb_ℤ (pos 0) (lib.cmp (some a) (some e)) ≡ false
        → num_of e ≡ last
        → num_of a ≤ last
    not_past a e test within n_e = elim (dec_lt (num_of e) (num_of a)) [
      | yes lt ↦ let past = test.1 lt in absurd (cc)
      | no ge ↦ omega arith
    ]

    -- With enough rounds the loop ends, and has met the whole range.
    pub scan_lem :
        (e : Ip)
        → s.end ≡ some e
        → size_of e ≡ size
        → num_of e ≡ last
        → (fuel : ℕ) (a : Ip) (slice : IpSlice) → size_of a ≡ size
        → first ≤ num_of a
        → num_of a ≤ suc last
        → suc last < fuel + num_of a
        → Scanned (num_of a) slice
        → (out : IpSlice) × (scan lib fuel s (some a) slice ≡ some out) × Scanned (suc last) out
    scan_lem e at f_e n_e zero a slice f h le enough v = absurd (omega arith)
    scan_lem e at f_e n_e (suc fuel) a slice f h le enough v =
        let test = c.above a e f f_e in
        elim (Bool-cases (ltb_ℤ (pos 0) (lib.cmp (some a) (some e)))) [
          | inl past ↦
              let done : num_of a ≡ suc last = omega (arith, test.0 past) in
              (
                slice,
                scan_stop fuel (some a) slice (rw at past),
                subst (λ m. Scanned m slice) done v,
              )
          | inr within ↦
              let below : num_of a ≤ last = not_past a e test within n_e in
              let (b, nx, f_b, n_b) = c.steps a f h below in
              let v' =
                subst (λ m. Scanned m (visit lib s (some a) slice)) (sym n_b)
                  (visit-Scanned a slice f (h, below) v) in
              let (out, run, all) =
                scan_lem e at f_e n_e fuel b (visit lib s (some a) slice) f_b (omega arith)
                  (omega arith) (omega arith) v' in
              (out, scan_step fuel (some a) slice (rw at within) ∙ rw nx run, all)
        ]

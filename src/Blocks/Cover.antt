-- ===== src/Blocks/Cover.antt =====
-- pkg/daemon/utils/ip_range.go: the addresses that a range and a list of ranges hold, and how
-- `TryAddIP` adds an address to them.
use hybridnet.Base.{
  ℕ, ◌≤◌, ◌<◌, ◌≡◌, ◌↔◌, ◌∙◌, refl, sym, subst, Bool, true, false, if_rule, not, List, [], ◌∷◌,
  none, some, pos, ltb, leb, ltb_ℤ, ◌==◌, ◌&&◌, ◌||◌, if◌then◌else◌, arith,
}
use hybridnet.Net.{Ip, equal}
use hybridnet.Blocks.{RangeLib, IpRange, ok, addr_num, create_ip_range, try_add_ip}
use hybridnet.Blocks.Family.{size_of, num_of, Numbers}

-- The range holds the number.
abbrev pub holds : IpRange → ℕ → Bool
holds r n = leb (addr_num r.start) n && leb n (addr_num r.end)

-- A range of the list holds the number.
unfoldable pub covers : List IpRange → ℕ → Bool
covers [] n = false
covers (r ∷ rs) n = holds r n || covers rs n

-- A range of one family that is not empty and lies between `lo` and `hi`.
pub record Proper (size lo hi : ℕ) (r : IpRange) : Type 0 where
  pub first : Ip
  pub final : Ip
  pub starts : r.start ≡ some first
  pub ends : r.end ≡ some final
  pub first_size : size_of first ≡ size
  pub final_size : size_of final ≡ size
  pub low : lo < num_of first
  pub order : num_of first ≤ num_of final
  pub high : num_of final < hi

pub data Every (P : IpRange → Type 0) : List IpRange → Type 0 where
  nil : Every P []
  cons : {r : IpRange} {rs : List IpRange} → P r → Every P rs → Every P (r ∷ rs)

test_eq : (b : Bool) (m n : ℕ) → (b ≡ true ↔ m < n) → b ≡ ltb m n
test_eq true m n h = ground (arith, h)
test_eq false m n h = ground (arith, h)

if_ok : {A : Type 0} (b : Bool) (x y : A) → (if b then ok x else ok y) ≡ ok (if b then x else y)
if_ok true x y = refl
if_ok false x y = refl

equal_num : (a b : Ip) → size_of a ≡ size_of b → equal (some a) (some b) ≡ (num_of a == num_of b)
unfolding equal
equal_num a b h = ground (arith, h)

-- The range from one address to another.
abbrev pub span : Ip → Ip → IpRange
span s e = record { start = some s; end = some e }

pub shape : {size lo hi : ℕ} (r : IpRange) (p : Proper size lo hi r) → span p.first p.final ≡ r
shape r p = rw (p.starts, p.ends) refl

pub span-Proper :
    (size lo hi : ℕ) (s e : Ip)
    → size_of s ≡ size
    → size_of e ≡ size
    → lo < num_of s
    → num_of s ≤ num_of e
    → num_of e < hi
    → Proper size lo hi (span s e)
span-Proper size lo hi s e ss se low order high = record {
  first = s;
  final = e;
  starts = refl;
  ends = refl;
  first_size = ss;
  final_size = se;
  low = low;
  order = order;
  high = high;
}

-- `out` is what `TryAddIP` leaves of the range `r`, and its answer.
abbrev pub Tried : (size lo hi m : ℕ) → IpRange → IpRange × Bool → Type 0
Tried size lo hi m r out =
    Proper size lo hi out.0 × (out.1 ≡ true → (n : ℕ) → holds out.0 n ≡ (holds r n || n == m))

module _ (lib : RangeLib) (size lo hi : ℕ) (numbers : Numbers lib size lo hi) where
  pub above_test :
      (a b : Ip)
      → size_of a ≡ size
      → size_of b ≡ size
      → ltb_ℤ (pos 0) (lib.address.cmp (some a) (some b)) ≡ ltb (num_of b) (num_of a)
  above_test a b sa sb =
      test_eq (ltb_ℤ (pos 0) (lib.address.cmp (some a) (some b))) (num_of b) (num_of a)
        (numbers.above a b sa sb)

  pub below_test :
      (a b : Ip)
      → size_of a ≡ size
      → size_of b ≡ size
      → ltb_ℤ (lib.address.cmp (some a) (some b)) (pos 0) ≡ ltb (num_of a) (num_of b)
  below_test a b sa sb =
      test_eq (ltb_ℤ (lib.address.cmp (some a) (some b)) (pos 0)) (num_of a) (num_of b)
        (numbers.below a b sa sb)

  pub create_proper :
      (s e : Ip)
      → size_of s ≡ size
      → size_of e ≡ size
      → create_ip_range lib (some s) (some e)
        ≡ ok (
            if ltb (num_of e) (num_of s)
            then none
            else some (record { start = some s; end = some e }))
  unfolding create_ip_range
  create_proper s e ss se =
      rw (above_test s e ss se) (if_ok (ltb (num_of e) (num_of s)) none (some (span s e)))

  try_span :
      (s e x before after : Ip)
      → size_of s ≡ size
      → size_of e ≡ size
      → size_of x ≡ size
      → lib.prev_ip (some s) ≡ some before
      → size_of before ≡ size
      → lib.address.next_ip (some e) ≡ some after
      → size_of after ≡ size
      → try_add_ip lib (some x) (span s e) ≡ (
          if num_of x == num_of before
          then (span x e, true)
          else if num_of x == num_of after
          then (span s x, true)
          else (span s e, not (ltb (num_of x) (num_of s)) && not (ltb (num_of e) (num_of x))))
  unfolding try_add_ip
  try_span s e x before after ss se sx is_prev sb is_next sa =
      rw
        (
          is_prev,
          is_next,
          equal_num x before (sx ∙ sym sb),
          equal_num x after (sx ∙ sym sa),
          below_test x s sx ss,
          above_test x e sx se,
        )
        refl

  span-Tried :
      (s e x : Ip)
      → size_of s ≡ size
      → size_of e ≡ size
      → size_of x ≡ size
      → lo < num_of s
      → num_of s ≤ num_of e
      → num_of e < hi
      → lo < num_of x
      → num_of x < hi
      → Tried size lo hi (num_of x) (span s e) (try_add_ip lib (some x) (span s e))
  span-Tried s e x ss se sx low order high x_low x_high =
      let (before, is_prev, sb, b_num) = numbers.prev s ss low (omega (arith, order, high)) in
      let (after, is_next, sa, a_num) = numbers.next e se (omega (arith, order, low)) high in
      let kept = not (ltb (num_of x) (num_of s)) && not (ltb (num_of e) (num_of x)) in
      let rest : IpRange × Bool =
        if num_of x == num_of after then (span s x, true) else (span s e, kept) in
      subst (Tried size lo hi (num_of x) (span s e))
        (sym (try_span s e x before after ss se sx is_prev sb is_next sa))
        (if_rule (Tried size lo hi (num_of x) (span s e)) {b = num_of x == num_of before}
          {x = (span x e, true)} {y = rest}
          (λ t. (span-Proper size lo hi x e sx se x_low (ground arith) high, λ _ n. ground arith))
          (λ f.
            if_rule (Tried size lo hi (num_of x) (span s e)) {b = num_of x == num_of after}
              {x = (span s x, true)} {y = (span s e, kept)}
              (λ t.
                (span-Proper size lo hi s x ss sx low (ground arith) x_high, λ _ n. ground arith))
              (λ g. (span-Proper size lo hi s e ss se low order high, λ t n. ground arith))))

  pub try_add_ip-Tried :
      (r : IpRange) (x : Ip)
      → Proper size lo hi r
      → size_of x ≡ size
      → lo < num_of x
      → num_of x < hi
      → Tried size lo hi (num_of x) r (try_add_ip lib (some x) r)
  try_add_ip-Tried r x p sx low high =
      subst (λ q. Tried size lo hi (num_of x) q (try_add_ip lib (some x) q)) (shape r p)
        (span-Tried p.first p.final x p.first_size p.final_size sx p.low p.order p.high low high)

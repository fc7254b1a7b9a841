-- ===== src/Blocks/Align.antt =====
-- Numbers that a power of two divides, for the prefixes of pkg/daemon/utils/ip_range.go.
use native.Mathlib.Nat.{one-le-pow, mul-div_cancel, le-div_iff_mul-le, div-lt_iff_lt-mul, pow-suc}
use hybridnet.Base.{
  ℕ, suc, ◌+◌, ◌*◌, ◌/◌, ◌^◌, ◌<◌, ◌≡◌, ◌&&◌, sym, ap, subst, ◌∙◌, ltb, leb, ◌==◌, arith,
}

-- The low `k` bits are zero.
abbrev pub Aligned : ℕ → ℕ → Type 0
Aligned k n = n / 2 ^ k * 2 ^ k ≡ n

pub power_pos : (k : ℕ) → 0 < 2 ^ k
power_pos k = omega (arith, one-le-pow k 2 (omega arith))

pub same_block :
    (k a x : ℕ) → Aligned k a → (x / 2 ^ k == a / 2 ^ k) ≡ (leb a x && ltb x (a + 2 ^ k))
same_block k a x h =
    let lo = le-div_iff_mul-le {k = 2 ^ k} {x = a / 2 ^ k} {y = x} (power_pos k) in
    let hi = div-lt_iff_lt-mul {k = 2 ^ k} {x = x} {y = suc (a / 2 ^ k)} (power_pos k) in
    let next : suc (a / 2 ^ k) * 2 ^ k ≡ a / 2 ^ k * 2 ^ k + 2 ^ k = omega arith in
    ground (arith, lo, hi, next, h)

pub halve : (k a : ℕ) → Aligned (suc k) a → Aligned k a
halve k a h =
    let q = a / 2 ^ suc k in
    let two : q * 2 ^ suc k ≡ q * 2 * 2 ^ k = rw (pow-suc 2 k) (omega arith) in
    let whole : q * 2 * 2 ^ k ≡ a = sym two ∙ h in
    subst (λ n. n / 2 ^ k * 2 ^ k ≡ n) whole
      (ap (λ n. n * 2 ^ k) (mul-div_cancel (q * 2) (power_pos k)))

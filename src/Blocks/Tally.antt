-- ===== src/Blocks/Tally.antt =====
-- The numbers that the gaps between ranges hold (pkg/daemon/utils/ip_range.go).
use hybridnet.Base.{
  ℕ, suc, ◌≤◌, ◌<◌, ◌≡◌, inl, inr, Bool, true, false, Bool-cases, not, ltb, leb, ◌&&◌, ◌||◌, arith,
}

pub head_out : (b c : Bool) → b ≡ true → (b || c) ≡ true
head_out b c h = ground (arith, h)

pub rest_out : (b c : Bool) → c ≡ true → (b || c) ≡ true
rest_out b c h = ground (arith, h)

pub only_fill :
    (a : Bool) (g e n : ℕ)
    → (a || (leb (suc g) n && leb n e)) || false ≡ a || ((ltb g n && leb n e) && not false)
only_fill a g e n = ground arith

-- The gap up to the next range, from `f` to `g`, and the gaps after it; `c` tells of the ranges after that.
pub fill :
    (a c x : Bool) (e f g l t n : ℕ)
    → suc t ≡ f
    → e < f
    → f ≤ g
    → g ≤ l
    → (n ≤ g → c ≡ false)
    → x ≡ ((ltb g n && leb n l) && not c)
    → ((a || (leb (suc e) n && leb n t)) || x)
      ≡ (a || ((ltb e n && leb n l) && not ((leb f n && leb n g) || c)))
fill a c x e f g l t n h ef fg gl beyond xs = elim (Bool-cases (leb n g)) [
  | inl low ↦
      (let none_there = beyond (ground (arith, low)) in
        rw (xs, none_there) (ground (arith, h, ef, fg, gl, low)))
  | inr high ↦ rw (xs) (ground (arith, h, ef, fg, gl, high))
]

pub not_met : (g f : ℕ) → not (ltb g f) ≡ false → g < f
not_met g f h = ground (arith, h)

pub beyond_both :
    (c : Bool) (e f g n : ℕ)
    → e < f
    → f ≤ g
    → (n ≤ g → c ≡ false)
    → n ≤ e
    → ((leb f n && leb n g) || c) ≡ false
beyond_both c e f g n ef fg beyond le = rw (beyond (omega arith)) (ground (arith, ef, le))

pub not_out : (f g s e : ℕ) → (ltb f s || ltb e g) ≡ false → (s ≤ f) × (g ≤ e)
not_out f g s e h = (ground (arith, h), ground (arith, h))

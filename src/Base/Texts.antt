-- ===== src/Base/Texts.antt =====
-- Sets of texts as lists: membership, distinctness, inclusion, and the pigeonhole principle.
use Prim.Native.Nat.{ℕ, zero, suc, ◌≤◌, ◌<◌}
use Prim.Native.String.{String}
use mathlib.Core.Path.{◌≡◌, refl, ap}
use mathlib.Core.Logic.{inl, inr, ◌≢◌}
use mathlib.Core.Bool.{Bool, true, false, ◌||◌}
use mathlib.Core.List.{List, [], ◌∷◌, ◌++◌}
use mathlib.Core.Option.{some}
use native.Mathlib.Omega.{arith}
pub use text.Mathlib.Text.{◌==◌ as str_eq}
pub use text.Mathlib.TextEquality.{eq_iff}
use hybridnet.Base.Tests.{if◌then◌else◌, Bool-cases}
use hybridnet.Base.Lists.{length, get_elem?}

abbrev pub is_empty : String → Bool
is_empty s = str_eq s ""

unfoldable pub contains : String → List String → Bool
contains k [] = false
contains k (x ∷ xs) = str_eq x k || contains k xs

abbrev pub Distinct : List String → Type 0
Distinct [] = Unit {0}
Distinct (x ∷ xs) = (contains x xs ≡ false) × Distinct xs

-- Every text of the first list is in the second.
abbrev pub Included : List String → List String → Type 0
Included xs ys = (k : String) → contains k xs ≡ true → contains k ys ≡ true

pub str_eq_refl : (k : String) → str_eq k k ≡ true
str_eq_refl k = (eq_iff k k).1 refl

pub contains-append :
    (k : String) (xs ys : List String) → contains k (xs ++ ys) ≡ contains k xs || contains k ys
unfolding contains
contains-append k [] ys = refl
contains-append k (x ∷ xs) ys = ground (arith, contains-append k xs ys)

pub get_elem?_of_contains :
    (k : String) (xs : List String)
    → contains k xs ≡ true
    → (i : ℕ) × (i < length xs) × (get_elem? xs i ≡ some k)
unfolding contains
get_elem?_of_contains k [] h = absurd (ground arith)
get_elem?_of_contains k (x ∷ xs) h = elim (Bool-cases (str_eq x k)) [
  | inl e ↦ (0, omega arith, ap some ((eq_iff x k).0 e))
  | inr e ↦ let (i, lt, at) = get_elem?_of_contains k xs (ground arith) in (suc i, omega arith, at)
]

pub contains_of_get_elem? :
    (k : String) (xs : List String) (i : ℕ) → get_elem? xs i ≡ some k → contains k xs ≡ true
unfolding contains
contains_of_get_elem? k [] i h = cc
contains_of_get_elem? k (x ∷ xs) zero h = ground (arith, eq_iff x k)
contains_of_get_elem? k (x ∷ xs) (suc i) h = ground (arith, contains_of_get_elem? k xs i h)

drop_one : String → List String → List String
drop_one k [] = []
drop_one k (x ∷ xs) = if str_eq x k then xs else x ∷ drop_one k xs

length-drop_one :
    (k : String) (xs : List String)
    → contains k xs ≡ true
    → suc (length (drop_one k xs)) ≡ length xs
unfolding contains drop_one
length-drop_one k [] h = ground arith
length-drop_one k (x ∷ xs) h = ground (arith, length-drop_one k xs)

contains-drop_one :
    (k j : String) (xs : List String)
    → k ≢ j
    → contains j xs ≡ true
    → contains j (drop_one k xs) ≡ true
unfolding contains drop_one
contains-drop_one k j [] n h = h
contains-drop_one k j (x ∷ xs) n h =
    ground (arith, contains-drop_one k j xs n, eq_iff x k, eq_iff x j)

-- Distinct texts that all stand in another list are at most as many as those.
pub length-le_of_Included :
    (xs ys : List String) → Distinct xs → Included xs ys → length xs ≤ length ys
unfolding contains
length-le_of_Included [] ys d i = omega arith
length-le_of_Included (x ∷ xs) ys d i =
    let rest =
      length-le_of_Included xs (drop_one x ys) d.1
        (λ k h. contains-drop_one x k ys (λ e. ground (arith, d.0, h)) (i k (ground arith))) in
    omega (arith, rest, length-drop_one x ys (i x (ground (arith, str_eq_refl x))))

pub append-Distinct :
    (xs ys : List String)
    → Distinct xs
    → Distinct ys
    → ((k : String) → contains k xs ≡ true → contains k ys ≡ false)
    → Distinct (xs ++ ys)
unfolding contains
append-Distinct [] ys d e h = e
append-Distinct (x ∷ xs) ys d e h =
    let rest = append-Distinct xs ys d.1 e (λ k m. h k (ground (arith, m))) in
    (ground (arith, contains-append x xs ys, h x (ground (arith, str_eq_refl x))), rest)

-- ===== src/Base/Outcome.antt =====
-- Go methods that mutate a receiver, may return an error and may panic: functions from a state to
-- an outcome. An error keeps the state that the method left behind.
pub mod Ends
use mathlib.Core.List.{List, [], ◌∷◌}
use mathlib.Core.Option.{Option, none, some}

-- `panic` is a run-time panic; `diverged` says that the rounds given to a loop were used up.
pub data Fault : Type 0 where
  panic diverged : Fault

pub data Outcome (S E A : Type 0) : Type 0 where
  ok : S → A → Outcome S E A
  err : S → E → Outcome S E A
  fault : Fault → Outcome S E A

abbrev pub M : Type 0 → Type 0 → Type 0 → Type 0
M S E A = S → Outcome S E A

module _ {S E : Type 0} where
  infixl 5 ◌>>=◌ ◌>>◌
  abbrev pub ◌>>=◌ : {A B : Type 0} → M S E A → (A → M S E B) → M S E B
  ◌>>=◌ m f s = elim (m s) [ ok t a ↦ f a t | err t e ↦ err t e | fault x ↦ fault x ]

  abbrev pub ◌>>◌ : {B : Type 0} → M S E (Unit {0}) → M S E B → M S E B
  m >> k = m >>= λ _. k

  abbrev pub return : {A : Type 0} → A → M S E A
  return a s = ok s a

  abbrev pub throw : {A : Type 0} → E → M S E A
  throw e s = err s e

  abbrev pub crash : {A : Type 0} → Fault → M S E A
  crash x s = fault x

  -- The state, and a change of it.
  abbrev pub asks : {A : Type 0} → (S → A) → M S E A
  asks f s = ok s (f s)

  abbrev pub modify : (S → S) → M S E (Unit {0})
  modify f s = ok (f s) tt

  -- An error under another heading, as `fmt.Errorf("...: %v", err)` makes one.
  abbrev pub wrap_err : {A : Type 0} → (E → E) → M S E A → M S E A
  wrap_err w m s = elim (m s) [ ok t a ↦ ok t a | err t e ↦ err t (w e) | fault x ↦ fault x ]

-- A method with a deferred call that undoes it when it has returned an error; the error of that call
-- is dropped.
abbrev pub on_error : {S E A : Type 0} → M S E (Unit {0}) → M S E A → M S E A
on_error undo m s = elim (m s) [
  | ok t a ↦ ok t a
  | err t e ↦ elim (undo t) [ ok u _ ↦ err u e | err u _ ↦ err u e | fault x ↦ fault x ]
  | fault x ↦ fault x
]

-- A call for each entry of a list, up to the first error.
unfoldable pub for_each : {S E A : Type 0} → (A → M S E (Unit {0})) → List A → M S E (Unit {0})
for_each f [] = return tt
for_each f (x ∷ xs) = f x >> for_each f xs

-- The same with the results collected.
unfoldable pub collect : {S E A B : Type 0} → (A → M S E B) → List A → M S E (List B)
collect f [] = return []
collect f (x ∷ xs) = f x >>= λ y. collect f xs >>= λ ys. return (y ∷ ys)

-- Runs a method on a part of the state. A part that is not there is a panic.
abbrev pub zoom : {S T E A : Type 0} → (S → Option T) → (T → S → S) → M T E A → M S E A
zoom get put m s = elim (get s) [
  | none ↦ fault panic
  | some t ↦ elim (m t) [
    | ok t' a ↦ ok (put t' s) a
    | err t' e ↦ err (put t' s) e
    | fault x ↦ fault x
  ]
]

-- The state that a call leaves behind.
abbrev pub left_by : {S E A : Type 0} → S → Outcome S E A → S
left_by s (ok t a) = t
left_by s (err t e) = t
left_by s (fault x) = s

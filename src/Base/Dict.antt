-- ===== src/Base/Dict.antt =====
-- A Go map with string keys, as an association list. `insert` writes where the key stands, or at
-- the end; `delete` drops the key.

use Prim.Native.String.{String}
use Prim.Native.Nat.{suc}
use mathlib.Core.Path.{◌≡◌, refl, ap}
use mathlib.Core.Logic.{inl, inr}
use mathlib.Core.Bool.{Bool, true, false, ◌&&◌, ◌||◌, not}
use mathlib.Core.List.{List, [], ◌∷◌}
use mathlib.Core.Option.{Option, none, some}
use native.Mathlib.Omega.{arith}
use hybridnet.Base.Tests.{if◌then◌else◌, Bool-cases}
use hybridnet.Base.Lists.{length}
use hybridnet.Base.Texts.{str_eq, eq_iff, contains, Distinct}

-- The entries in the order of their first writing.
abbrev pub Dict {ℓ} : Type ℓ → Type ℓ
Dict V = List (String × V)

module _ {ℓ} {V : Type ℓ} where
  abbrev pub keys : Dict V → List String
  keys [] = []
  keys ((other, v) ∷ entries) = other ∷ keys entries

  abbrev pub has : String → Dict V → Bool
  has key entries = contains key (keys entries)

  unfoldable pub lookup : String → Dict V → Option V
  lookup key [] = none
  lookup key ((other, v) ∷ entries) = if str_eq other key then some v else lookup key entries

  unfoldable pub insert : String → V → Dict V → Dict V
  insert key v [] = (key, v) ∷ []
  insert key v ((other, old) ∷ entries) =
      if str_eq other key then (other, v) ∷ entries else (other, old) ∷ insert key v entries

  unfoldable pub delete : String → Dict V → Dict V
  delete key [] = []
  delete key ((other, old) ∷ entries) =
      let rest = delete key entries in if str_eq other key then rest else (other, old) ∷ rest

  pub lookup-insert :
      (key other : String) (v : V) (entries : Dict V)
      → lookup other (insert key v entries)
        ≡ (if str_eq key other then some v else lookup other entries)
  unfolding lookup insert
  lookup-insert key other v [] = refl
  lookup-insert key other v ((here, old) ∷ entries) = ground (
    arith,
    lookup-insert key other v entries,
    eq_iff here key,
    eq_iff here other,
    eq_iff key other,
  )

  pub lookup-delete :
      (key other : String) (entries : Dict V)
      → lookup other (delete key entries)
        ≡ (if str_eq key other then none else lookup other entries)
  unfolding lookup delete
  lookup-delete key other [] = ground arith
  lookup-delete key other ((here, old) ∷ entries) =
      ground (
        arith,
        lookup-delete key other entries,
        eq_iff here key,
        eq_iff here other,
        eq_iff key other,
      )

  pub has-insert :
      (key other : String) (v : V) (entries : Dict V)
      → has other (insert key v entries) ≡ str_eq key other || has other entries
  unfolding contains insert
  has-insert key other v [] = refl
  has-insert key other v ((here, old) ∷ entries) =
      ground (
        arith,
        has-insert key other v entries,
        eq_iff here key,
        eq_iff here other,
        eq_iff key other,
      )

  pub has-delete :
      (key other : String) (entries : Dict V)
      → has other (delete key entries) ≡ not (str_eq key other) && has other entries
  unfolding contains delete
  has-delete key other [] = ground arith
  has-delete key other ((here, old) ∷ entries) =
      ground
        (arith, has-delete key other entries, eq_iff here key, eq_iff here other, eq_iff key other)

  pub has-lookup :
      (key : String) (entries : Dict V)
      → has key entries ≡ true
      → (v : V) × (lookup key entries ≡ some v)
  unfolding contains lookup
  has-lookup key [] h = ground arith
  has-lookup key ((other, v) ∷ entries) h = elim (Bool-cases (str_eq other key)) [
    | inl e ↦ (v, rw e)
    | inr e ↦ let (old, p) = has-lookup key entries (ground arith) in (old, rw e p)
  ]

  pub lookup_of_not-has :
      (key : String) (entries : Dict V) → has key entries ≡ false → lookup key entries ≡ none
  unfolding contains lookup
  lookup_of_not-has key [] h = refl
  lookup_of_not-has key ((other, v) ∷ entries) h = ground (arith, lookup_of_not-has key entries)

  pub has_of_lookup :
      (key : String) (entries : Dict V) (v : V)
      → lookup key entries ≡ some v
      → has key entries ≡ true
  unfolding contains lookup
  has_of_lookup key [] v h = ground arith
  has_of_lookup key ((other, old) ∷ entries) v h = ground (arith, has_of_lookup key entries v)

  pub keys-insert_old :
      (key : String) (v : V) (entries : Dict V)
      → has key entries ≡ true
      → keys (insert key v entries) ≡ keys entries
  unfolding contains insert
  keys-insert_old key v [] h = ground arith
  keys-insert_old key v ((other, old) ∷ entries) h = ground (arith, keys-insert_old key v entries)

  pub insert-Distinct :
      (key : String) (v : V) (entries : Dict V)
      → Distinct (keys entries)
      → Distinct (keys (insert key v entries))
  unfolding contains insert
  insert-Distinct key v [] d = (refl, tt)
  insert-Distinct key v ((other, old) ∷ entries) d = ground (
    arith,
    insert-Distinct key v entries d.1,
    has-insert key other v entries,
    eq_iff other key,
    eq_iff key other,
  )

  pub delete-Distinct :
      (key : String) (entries : Dict V)
      → Distinct (keys entries)
      → Distinct (keys (delete key entries))
  unfolding contains delete
  delete-Distinct key [] d = tt
  delete-Distinct key ((other, old) ∷ entries) d =
      ground (arith, delete-Distinct key entries d.1, has-delete key other entries)

  pub length-keys : (entries : Dict V) → length (keys entries) ≡ length entries
  length-keys [] = refl
  length-keys ((other, v) ∷ entries) = ap suc (length-keys entries)

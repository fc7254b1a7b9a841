-- ===== src/Utils.antt =====
-- pkg/utils/slice.go and string.go: small helpers over texts.
use Prim.Native.Nat.{Ordering}
use Prim.Native.String.{compare}
use hybridnet.Base.{
  Bool, true, false, not, ◌&&◌, List, [], ◌∷◌, String, str_eq, is_empty, length, ◌==◌,
  if◌then◌else◌,
}

-- a ≤ b in the order of Go's strings.
unfoldable pub le_text : String → String → Bool
le_text a b = elim (compare a b) [ Ordering.gt ↦ false | _ ↦ true ]

-- `sort.Strings`, whose result is the ordered permutation of its argument.
unfoldable pub insert_text : String → List String → List String
insert_text k [] = k ∷ []
insert_text k (x ∷ xs) = if le_text k x then k ∷ x ∷ xs else x ∷ insert_text k xs

unfoldable pub sort_texts : List String → List String
unfolding insert_text
sort_texts [] = []
sort_texts (x ∷ xs) = insert_text x (sort_texts xs)

-- The loop over two slices of one length.
unfoldable pub same_texts : List String → List String → Bool
same_texts [] [] = true
same_texts (x ∷ xs) (y ∷ ys) = str_eq x y && same_texts xs ys
same_texts _ _ = false

unfoldable pub deep_equal_string_slice : List String → List String → Bool
unfolding sort_texts same_texts
deep_equal_string_slice a b =
    if not (length a == length b) then false else same_texts (sort_texts a) (sort_texts b)

-- `PickFirstNonEmptyString`
unfoldable pub pick_first_non_empty_string : List String → String
pick_first_non_empty_string [] = ""
pick_first_non_empty_string (s ∷ ss) =
    let rest = pick_first_non_empty_string ss in if is_empty s then rest else s

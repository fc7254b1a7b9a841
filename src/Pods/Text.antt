-- ===== src/Pods/Text.antt =====
-- The texts that pkg/controllers/networking/pod_controller.go reads from a pod: `strings.Split` by one
-- character, `GetIndexFromName` of pkg/controllers/utils/format.go, `ParseBoolOrDefault` of
-- pkg/utils/bool.go, `NormalizedIP` of pkg/utils/ip.go, and the tests of pkg/controllers/utils/pod.go.
use Prim.Native.Char.{Char, code}
use hybridnet.Base.{
  ℕ, ◌+◌, ◌-◌, ◌*◌, ◌^◌, Bool, true, false, ◌&&◌, List, [], ◌∷◌, Option, none, some, String, ◌==◌,
  ltb, leb, if◌then◌else◌, str_eq, contains,
}
use hybridnet.Net.{AddressLib}
use hybridnet.Store.Types.{Pod}

front : Char → List String → List String
front c [] = String.◌∷◌ c "" ∷ []
front c (x ∷ xs) = String.◌∷◌ c x ∷ xs

-- `strings.Split`, by an ASCII character.
unfoldable pub split : Char → String → List String
unfolding front
split sep String.[] = "" ∷ []
split sep (String.◌∷◌ c s) =
    let rest = split sep s in if code c == code sep then "" ∷ rest else front c rest

last_of : String → List String → String
last_of other [] = other
last_of other (x ∷ xs) = last_of x xs

is_digit : Char → Bool
is_digit c = leb b'0' (code c) && leb (code c) b'9'

-- The digits of `strconv.Atoi` behind those read; `none` is its error.
digits_from : ℕ → String → Option ℕ
unfolding is_digit
digits_from n String.[] = if ltb n (2 ^ 63) then some n else none
digits_from n (String.◌∷◌ c s) =
    let rest = digits_from (n * 10 + (code c - b'0')) s in if is_digit c then rest else none

unsigned : String → Option ℕ
unfolding digits_from
unsigned String.[] = none
unsigned (String.◌∷◌ c s) = digits_from 0 (String.◌∷◌ c s)

-- `strconv.Atoi` of a text without a minus sign.
atoi : String → Option ℕ
unfolding unsigned
atoi String.[] = none
atoi (String.◌∷◌ c s) = if code c == b'+' then unsigned s else unsigned (String.◌∷◌ c s)

-- `GetIndexFromName`; `math.MaxInt32` is 2147483647.
unfoldable pub get_index_from_name : String → ℕ
unfolding split last_of atoi
get_index_from_name name = elim (atoi (last_of "" (split "-" name))) [
  | none ↦ 2147483647
  | some index ↦ index
]

-- `strconv.ParseBool`
parse_bool : String → Option Bool
parse_bool in_ =
    if contains in_ ("1" ∷ "t" ∷ "T" ∷ "TRUE" ∷ "true" ∷ "True" ∷ [])
    then some true
    else if contains in_ ("0" ∷ "f" ∷ "F" ∷ "FALSE" ∷ "false" ∷ "False" ∷ [])
    then some false
    else none

unfoldable pub parse_bool_or_default : String → Bool → Bool
unfolding parse_bool
parse_bool_or_default in_ default_value = elim (parse_bool in_) [
  | none ↦ default_value
  | some b ↦ b
]

unfoldable pub normalized_ip : AddressLib → String → String
normalized_ip lib ip = elim (lib.parse_ip ip) [ none ↦ "" | some _ ↦ ip ]

unfoldable pub pod_is_evicted : Pod → Bool
pod_is_evicted pod = str_eq pod.phase "Failed" && str_eq pod.reason "Evicted"

-- The containers whose status is not known.
unknown_container_count : List String → List String → ℕ
unknown_container_count statuses [] = 0
unknown_container_count statuses (name ∷ names) =
    (if contains name statuses then 0 else 1) + unknown_container_count statuses names

unfoldable pub pod_is_completed : Pod → Bool
unfolding unknown_container_count
pod_is_completed pod =
    let unknown = unknown_container_count pod.container_statuses pod.containers in
    str_eq pod.phase "Succeeded" && unknown == 0

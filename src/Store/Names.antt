-- ===== src/Store/Names.antt =====
-- The names of IP instances: pkg/ipam/store/store.go (`toDNSLabelFormat`, `unifyIPv6AddressString`) and
-- the way back of pkg/controllers/utils/format.go; of pkg/ipam/types/ip.go, `IsIPv6`.
use Prim.Native.Char.{Char, code}
use Prim.Native.String.{◌++◌ as add_text}
use hybridnet.Base.{
  ℕ, zero, suc, ◌+◌, ◌-◌, Bool, true, false, not, ◌&&◌, none, some, String, ◌==◌, ltb,
  if◌then◌else◌,
}
use hybridnet.Net.{AddressLib, to4}
use hybridnet.Ipam.Types.{IpInfo}
use hybridnet.Ipam.Family.{IpFamilyMode, ipv4_only, ipv6_only}

-- `(*IP).IsIPv6`; an address is never nil here.
unfoldable pub is_ipv6 : IpInfo → Bool
is_ipv6 ip = elim ip.address.ip [
  | none ↦ false
  | some a ↦ elim (to4 a) [ none ↦ true | some _ ↦ false ]
]

-- `strings.ReplaceAll` of one ASCII character by another.
unfoldable pub replace_char : Char → Char → String → String
replace_char old new String.[] = String.[]
replace_char old new (String.◌∷◌ c s) =
    String.◌∷◌ (if code c == code old then new else c) (replace_char old new s)

-- `strings.Count` of an ASCII character.
unfoldable pub count_char : Char → String → ℕ
count_char a String.[] = 0
count_char a (String.◌∷◌ c s) = (if code c == code a then 1 else 0) + count_char a s

-- `strings.ReplaceAll` of "::": the flag says that a colon stands just before the text, not yet written.
replace_colons_from : Bool → String → String → String
replace_colons_from pending new String.[] = if pending then ":" else ""
replace_colons_from pending new (String.◌∷◌ c s) =
    let colon = code c == b':' in
    let rest = replace_colons_from (colon && not pending) new s in
    if pending
    then (if colon then add_text new rest else String.◌∷◌ ":" (String.◌∷◌ c rest))
    else (if colon then rest else String.◌∷◌ c rest)

replace_colons : String → String → String
unfolding replace_colons_from
replace_colons new s = replace_colons_from false new s

-- `strings.Join` of `n + 1` colons by "0".
joined_colons : ℕ → String
joined_colons zero = ":"
joined_colons (suc n) = add_text ":0" (joined_colons n)

-- `unifyIPv6AddressString`
unfoldable pub unify_ipv6_address_string : String → String
unfolding count_char replace_colons joined_colons
unify_ipv6_address_string ip =
    let section_count = count_char ":" ip + 1 in
    if ltb section_count 8 then replace_colons (joined_colons (9 - section_count)) ip else ip

-- `toDNSLabelFormat`
unfoldable pub to_dns_label_format : AddressLib → IpInfo → String
unfolding is_ipv6 replace_char unify_ipv6_address_string
to_dns_label_format lib ip =
    if not (is_ipv6 ip)
    then replace_char "." "-" (lib.ip_string ip.address.ip)
    else replace_char ":" "-" (unify_ipv6_address_string (lib.ip_string ip.address.ip))

-- `ToIPFormat`
unfoldable pub to_ip_format : AddressLib → String → String
unfolding count_char replace_char
to_ip_format lib name =
    if count_char "-" name == 7
    then lib.ip_string (lib.parse_ip (replace_char "-" ":" name))
    else replace_char "-" "." name

-- `ToIPFormatWithFamily`
unfoldable pub to_ip_format_with_family : AddressLib → String → String × Bool
unfolding count_char replace_char
to_ip_format_with_family lib name =
    if count_char "-" name == 7
    then (lib.ip_string (lib.parse_ip (replace_char "-" ":" name)), true)
    else (replace_char "-" "." name, false)

-- `ToIPFamilyMode`
pub to_ip_family_mode : Bool → IpFamilyMode
to_ip_family_mode true = ipv6_only
to_ip_family_mode false = ipv4_only

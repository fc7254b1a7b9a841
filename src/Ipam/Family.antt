-- ===== src/Ipam/Family.antt =====
-- pkg/ipam/types/constants.go: the IP family modes and the network types, and how they are read from
-- a text or from the environment. `getenv` stands for os.Getenv at the time of the call.
pub mod Once
mod Tests
use Prim.Native.Char.{code}
use hybridnet.Base.{
  ℕ, ◌+◌, Bool, true, false, ◌&&◌, ◌||◌, List, [], ◌∷◌, Option, none, some, String, ◌==◌, leb,
  if◌then◌else◌, is_empty,
}
use hybridnet.Ipam.Types.{NetworkType}

-- `IPFamilyMode`: its three constants, or any other text.
pub data IpFamilyMode : Type 0 where
  ipv4_only ipv6_only dual_stack : IpFamilyMode
  other : String → IpFamilyMode

-- Lower case of a code point. Of the letters outside ASCII it changes those whose lower case is an
-- ASCII letter (U+0130 and U+212A), since the source compares the result with ASCII texts only.
lower : ℕ → ℕ
lower c = if leb b'A' c && leb c b'Z' then c + 32 else lower_other c
  where
    lower_other : ℕ → ℕ
    lower_other c = if c == 304 then b'i' else if c == 8490 then b'k' else c

-- `strings.ToLower`, as code points.
pub to_lower : String → List ℕ
unfolding lower
to_lower String.[] = []
to_lower (String.◌∷◌ c s) = lower (code c) ∷ to_lower s

same_codes : List ℕ → List ℕ → Bool
same_codes [] [] = true
same_codes (x ∷ xs) (y ∷ ys) = x == y && same_codes xs ys
same_codes _ _ = false

-- A `case strings.ToLower(t)` of a switch on a text in lower case.
is_case : List ℕ → String → Bool
unfolding to_lower same_codes
is_case low t = same_codes low (to_lower t)

-- `ParseIPFamilyFromEnv`
pub parse_ip_family_from_env : (String → String) → IpFamilyMode
unfolding is_case
parse_ip_family_from_env getenv =
    let ip_family_env = getenv "DEFAULT_IP_FAMILY" in
    let low = to_lower ip_family_env in
    if is_case low "IPv4Only" || is_case low "IPv4" || is_case low ""
    then ipv4_only
    else if is_case low "IPv6Only" || is_case low "IPv6"
    then ipv6_only
    else if is_case low "DualStack"
    then dual_stack
    else other ip_family_env

-- `ParseIPFamilyFromEnvOnce`: the state is the value that `sync.Once` has stored.
pub parse_ip_family_from_env_once :
    (String → String) → Option IpFamilyMode → IpFamilyMode × Option IpFamilyMode
unfolding parse_ip_family_from_env
parse_ip_family_from_env_once getenv (some mode) = (mode, some mode)
parse_ip_family_from_env_once getenv none =
    let mode = parse_ip_family_from_env getenv in (mode, some mode)

-- `ParseIPFamilyFromString`; the first argument is feature.DualStackEnabled().
pub parse_ip_family_from_string :
    Bool → (String → String) → String → Option IpFamilyMode → IpFamilyMode × Option IpFamilyMode
unfolding is_case parse_ip_family_from_env_once
parse_ip_family_from_string false getenv text from_env = (ipv4_only, from_env)
parse_ip_family_from_string true getenv text from_env =
    let low = to_lower text in
    if is_case low ""
    then parse_ip_family_from_env_once getenv from_env
    else if is_case low "IPv4Only" || is_case low "IPv4"
    then (ipv4_only, from_env)
    else if is_case low "IPv6Only" || is_case low "IPv6"
    then (ipv6_only, from_env)
    else if is_case low "DualStack"
    then (dual_stack, from_env)
    else (ipv4_only, from_env)

abbrev pub underlay : NetworkType
underlay = "Underlay"

abbrev pub overlay : NetworkType
overlay = "Overlay"

-- `ParseNetworkTypeFromEnv`
pub parse_network_type_from_env : (String → String) → NetworkType
unfolding is_case
parse_network_type_from_env getenv =
    let network_type_env = getenv "DEFAULT_NETWORK_TYPE" in
    let low = to_lower network_type_env in
    if is_case low underlay || is_case low ""
    then underlay
    else if is_case low overlay
    then overlay
    else network_type_env

-- `ParseNetworkTypeFromEnvOnce`
pub parse_network_type_from_env_once :
    (String → String) → Option NetworkType → NetworkType × Option NetworkType
unfolding parse_network_type_from_env
parse_network_type_from_env_once getenv (some type) = (type, some type)
parse_network_type_from_env_once getenv none =
    let type = parse_network_type_from_env getenv in (type, some type)

-- `ParseNetworkTypeFromString`
pub parse_network_type_from_string :
    (String → String) → String → Option NetworkType → NetworkType × Option NetworkType
unfolding is_case parse_network_type_from_env_once
parse_network_type_from_string getenv text from_env =
    let low = to_lower text in
    if is_case low underlay
    then (underlay, from_env)
    else if is_case low overlay
    then (overlay, from_env)
    else if is_case low ""
    then parse_network_type_from_env_once getenv from_env
    else (text, from_env)

-- ===== src/Ipam/Family/Tests.antt =====
-- Runs of the readings of pkg/ipam/types/constants.go.
use hybridnet.Base.{◌≡◌, refl, true, false, List, [], ◌∷◌, none, String}
use hybridnet.Ipam.Family.{
  dual_stack, to_lower, parse_ip_family_from_env, parse_ip_family_from_string,
}
use hybridnet.Ipam.Family.Once.{Call, after, empty_text_lem}

abbrev no_env : String → String
no_env name = ""

abbrev dual_env : String → String
dual_env name = "dualSTACK"

abbrev calls : List Call
calls =
    record { enabled = true; env = dual_env; text = "" }
    ∷ record { enabled = false; env = no_env; text = "IPv6" }
    ∷ []

empty_text_lem_example :
    let (mode, st) = parse_ip_family_from_string true dual_env "" none in
    (mode ≡ parse_ip_family_from_env dual_env)
    × ((parse_ip_family_from_string true no_env "" (after calls st)).0 ≡ mode)
empty_text_lem_example = empty_text_lem dual_env no_env calls

dual_run : parse_ip_family_from_env dual_env ≡ dual_stack
unfolding parse_ip_family_from_env to_lower
dual_run = refl

-- ===== src/Ipam/Family/Once.antt =====
-- How pkg/ipam/types/constants.go reads a family over many calls.
use hybridnet.Base.{arith, ◌≡◌, refl, Bool, true, false, List, [], ◌∷◌, Option, none, some, String}
use hybridnet.Ipam.Family.{
  IpFamilyMode, parse_ip_family_from_env, parse_ip_family_from_env_once,
  parse_ip_family_from_string,
}

-- A call of ParseIPFamilyFromString, with the environment at its time.
pub record Call : Type 0 where
  pub enabled : Bool
  pub env : String → String
  pub text : String

-- The value kept from the environment after some calls.
abbrev pub after : List Call → Option IpFamilyMode → Option IpFamilyMode
after [] st = st
after (c ∷ cs) st = after cs (parse_ip_family_from_string c.enabled c.env c.text st).1

kept_lem :
    (enabled : Bool) (getenv : String → String) (text : String) (m : IpFamilyMode)
    → (parse_ip_family_from_string enabled getenv text (some m)).1 ≡ some m
unfolding parse_ip_family_from_string parse_ip_family_from_env_once
kept_lem false getenv text m = refl
kept_lem true getenv text m = ground arith

after-kept : (cs : List Call) (m : IpFamilyMode) → after cs (some m) ≡ some m
after-kept [] m = refl
after-kept (c ∷ cs) m = rw (kept_lem c.enabled c.env c.text m) (after-kept cs m)

-- With dual stack enabled and nothing kept yet, an empty text is read as what the environment says
-- then; after any further calls it is still read so, whatever the environment says by then.
pub empty_text_lem :
    (first later : String → String) (cs : List Call)
    → let (mode, st) = parse_ip_family_from_string true first "" none in
      (mode ≡ parse_ip_family_from_env first)
      × ((parse_ip_family_from_string true later "" (after cs st)).0 ≡ mode)
unfolding parse_ip_family_from_string parse_ip_family_from_env_once
empty_text_lem first later cs = (refl, rw (after-kept cs (parse_ip_family_from_env first)) refl)

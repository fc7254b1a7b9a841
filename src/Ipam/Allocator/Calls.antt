-- ===== src/Ipam/Allocator/Calls.antt =====
-- The calls of Allocate and Release of pkg/ipam/allocator/allocator.go with their answers, and the pool of
-- addresses that they are transitions of.
use hybridnet.Base.{
  ℕ, ◌≡◌, Bool, false, ◌&&◌, List, [], ◌∷◌, Option, none, some, String, ◌==◌, str_eq,
}
use hybridnet.Base.Dict.{lookup}
use hybridnet.Base.Outcome.{Outcome, ok, err, fault}
use hybridnet.Net.{AddressLib}
use hybridnet.Ipam.Types.{IpInfo, Network, NetworkSet, Error, status_using}
use hybridnet.Ipam.Allocator.{allocate, release}
use hybridnet.Ipam.Allocator.Pool.{Entry, entries, given_back, Others}

-- An address: the name of a network, the place of a subnet in it, and a text.
abbrev pub Key : Type 0
Key = String × ℕ × String

abbrev pub same_key : Key → Key → Bool
same_key k j = str_eq k.0 j.0 && (k.1 == j.1 && str_eq k.2 j.2)

abbrev pub network_entries : Option Network → ℕ × String → Entry
network_entries none k = (none, false)
network_entries (some n) k = entries n k

-- The allocator as a pool, which forgets cursors, indexes and availability.
abbrev pub pool : NetworkSet → Key → Entry
pool s k = network_entries (lookup k.0 s) (k.1, k.2)

-- A call, and its answer.
pub data Call : Type 0 where
  allocate_call : (network subnet pod_name pod_namespace : String) → Call
  release_call : (network subnet ip : String) → Call

pub data Answer : Type 0 where
  gave : IpInfo → Answer
  done refused crashed : Answer

abbrev pub answered :
    {A : Type 0} → (A → Answer) → NetworkSet → Outcome NetworkSet Error A → Answer × NetworkSet
answered answer s (ok t a) = (answer a, t)
answered answer s (err t e) = (refused, t)
answered answer s (fault x) = (crashed, s)

unfoldable pub serve : AddressLib → Call → NetworkSet → Answer × NetworkSet
serve lib (allocate_call network subnet pod_name pod_namespace) s =
    answered gave s (allocate lib network subnet pod_name pod_namespace s)
serve lib (release_call network subnet ip) s = answered (λ _. done) s (release network subnet ip s)

-- The calls one after another, each with its answer.
unfoldable pub serve_all : AddressLib → List Call → NetworkSet → List (Call × Answer) × NetworkSet
unfolding serve
serve_all lib [] s = ([], s)
serve_all lib (call ∷ calls) s =
    let (answer, t) = serve lib call s in
    let (log, u) = serve_all lib calls t in ((call, answer) ∷ log, u)

-- The one transition of the pool that a call with this answer is. An address is given to a pod whose entry
-- has no record, and gets the record that the answer holds; an address that is given back loses its record,
-- or keeps it as reserved if it is reserved; a refusal changes nothing. No other entry changes.
pub data Transition (p q : Key → Entry) : Call → Answer → Type 0 where
  took :
      {network subnet pod_name pod_namespace : String} {c : IpInfo} (i : ℕ) (text : String)
      (reserved : Bool)
      → p (network, i, text) ≡ (none, reserved)
      → q (network, i, text) ≡ (some c, reserved)
      → (c.pod_name ≡ pod_name) × (c.pod_namespace ≡ pod_namespace) × (c.status ≡ status_using)
      → Others same_key (network, i, text) p q
      → Transition p q (allocate_call network subnet pod_name pod_namespace) (gave c)
  back :
      {network subnet ip : String} (i : ℕ)
      → q (network, i, ip) ≡ given_back (p (network, i, ip))
      → Others same_key (network, i, ip) p q
      → Transition p q (release_call network subnet ip) done
  unmoved : {call : Call} → ((k : Key) → q k ≡ p k) → Transition p q call refused

-- A log of calls and answers, with one transition for each.
pub data Explains : (Key → Entry) → List (Call × Answer) → (Key → Entry) → Type 0 where
  at_end : {p : Key → Entry} → Explains p [] p
  next :
      {p q r : Key → Entry} {call : Call} {answer : Answer} {log : List (Call × Answer)}
      → Transition p q call answer
      → Explains q log r
      → Explains p ((call, answer) ∷ log) r

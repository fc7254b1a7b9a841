-- ===== src/Ipam/Allocator/Histories.antt =====
-- The allocator of pkg/ipam/allocator/allocator.go over a sequence of calls.
use hybridnet.Base.{◌≢◌, String}
use hybridnet.Base.Outcome.{Outcome, ok, err, fault, Fault, left_by}
use hybridnet.Base.Outcome.Ends.{Ends}
use hybridnet.Net.{AddressLib}
use hybridnet.Ipam.Types.{NetworkSet}
use hybridnet.Ipam.Network.Ready.{AllReady, Changed}
use hybridnet.Ipam.Allocator.{allocate, release}
use hybridnet.Ipam.Allocator.Safety.{GaveOut, allocate-Ends}
use hybridnet.Ipam.Allocator.Returns.{TookBack, release-Ends}

-- The sets that calls of `Allocate` and `Release` lead to, whether they fail or not.
pub data Served (lib : AddressLib) (s : NetworkSet) : NetworkSet → Type 0 where
  unchanged : Served lib s s
  allocated :
      (network subnet pod_name pod_namespace : String) (t : NetworkSet)
      → Served lib s t
      → Served lib s (left_by t (allocate lib network subnet pod_name pod_namespace t))
  released :
      (network subnet ip : String) (t : NetworkSet)
      → Served lib s t
      → Served lib s (left_by t (release network subnet ip t))

left_by-AllReady :
    {E A : Type 0} (R : NetworkSet → A → Type 0) (s : NetworkSet) (o : Outcome NetworkSet E A)
    → Ends AllReady (λ t a. AllReady t × R t a) o
    → AllReady (left_by s o)
left_by-AllReady R s (ok t a) h = h.0
left_by-AllReady R s (err t e) h = h
left_by-AllReady R s (fault x) h = elim h [ ]

not_fault :
    {E A : Type 0} (F : NetworkSet → Type 0) (Q : NetworkSet → A → Type 0)
    (o : Outcome NetworkSet E A)
    → Ends F Q o
    → (x : Fault) → o ≢ fault x
not_fault F Q o h x e = rw e at h

module _ (lib : AddressLib) (s : NetworkSet) (all : AllReady s) where
  Served-AllReady : (t : NetworkSet) → Served lib s t → AllReady t
  Served-AllReady t unchanged = all
  Served-AllReady t (allocated network subnet pod_name pod_namespace u h) =
      left_by-AllReady (Changed (GaveOut lib pod_name pod_namespace) network u) u _
        (allocate-Ends lib pod_name pod_namespace network subnet u (Served-AllReady u h))
  Served-AllReady t (released network subnet ip u h) =
      left_by-AllReady (Changed (TookBack ip) network u) u _
        (release-Ends ip network subnet u (Served-AllReady u h))

  -- From a network set whose networks are ready, any sequence of calls of Allocate and Release, failed
  -- ones included, leads to a set whose networks are ready, on which no call of either panics or runs
  -- out of rounds.
  pub Served-safe :
      (t : NetworkSet)
      → Served lib s t
      → AllReady t
        × ((network subnet pod_name pod_namespace : String) (x : Fault)
            → allocate lib network subnet pod_name pod_namespace t ≢ fault x)
        × ((network subnet ip : String) (x : Fault) → release network subnet ip t ≢ fault x)
  Served-safe t h =
      let ready = Served-AllReady t h in
      (
        ready,
        λ network subnet pod_name pod_namespace.
            not_fault AllReady _ (allocate lib network subnet pod_name pod_namespace t)
              (allocate-Ends lib pod_name pod_namespace network subnet t ready),
        λ network subnet ip.
            not_fault AllReady _ (release network subnet ip t)
              (release-Ends ip network subnet t ready),
      )

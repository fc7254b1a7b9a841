-- ===== src/Ipam/Allocator/Refines.antt =====
-- The calls of the allocator of pkg/ipam/allocator/allocator.go as transitions of a pool of addresses.
use mathlib.Core.List.{map}
use hybridnet.Base.{
  ℕ, ◌≡◌, ◌∙◌, refl, ap, sym, subst, inl, inr, true, false, ◌&&◌, List, [], ◌∷◌, some, String, ◌==◌,
  str_eq, eq_iff, arith, Bool-cases, Option-cases,
}
use hybridnet.Base.Dict.{lookup, insert, lookup-insert}
use hybridnet.Base.Outcome.{M, Outcome, ok, err, fault}
use hybridnet.Base.Outcome.Ends.{Ends, Ends-mono, Ends-put}
use hybridnet.Net.{AddressLib}
use hybridnet.Ipam.Types.{Network, NetworkSet, Error}
use hybridnet.Ipam.Network.{at_network}
use hybridnet.Ipam.Network.Ready.{IsReady, AllReady}
use hybridnet.Ipam.Allocator.{allocate, release, missing_network}
use hybridnet.Ipam.Allocator.Calls.{
  Key, same_key, network_entries, pool, Call, allocate_call, release_call, Answer, gave, done,
  answered, serve, serve_all, Transition, took, back, unmoved, Explains, at_end, next,
}
use hybridnet.Ipam.Allocator.Safety.{allocate-Ends}
use hybridnet.Ipam.Allocator.Returns.{release-Ends}
use hybridnet.Ipam.Allocator.Moves.{ForPod, allocate_next-Took, release-Back, located-Ends}
use hybridnet.Ipam.Allocator.Pool.{entries, given_back, Others, Unchanged, Took, Back}

-- A step of the entries of a network, read in the set that holds it.
module _ (s : NetworkSet) (network : String) (n m : Network)
    (there : lookup network s ≡ some n) where
  in_after : (j : ℕ × String) → pool (insert network m s) (network, j.0, j.1) ≡ entries m j
  in_after j =
      let now : lookup network (insert network m s) ≡ some m =
        lookup-insert network network m s ∙ ground (arith, eq_iff network network) in
      ap (λ x. network_entries x j) now

  in_before : (j : ℕ × String) → pool s (network, j.0, j.1) ≡ entries n j
  in_before j = ap (λ x. network_entries x j) there

  -- A key of the set whose entry has not changed in the network.
  lifted :
      (name : String) (j : ℕ × String)
      → (str_eq network name ≡ true → entries m j ≡ entries n j)
      → pool (insert network m s) (name, j.0, j.1) ≡ pool s (name, j.0, j.1)
  lifted name j keep = elim (Bool-cases (str_eq network name)) [
    | inl e ↦
        let q : network ≡ name = (eq_iff network name).0 e in
        subst (λ x. pool (insert network m s) (x, j.0, j.1) ≡ pool s (x, j.0, j.1)) q
          (in_after j ∙ keep e ∙ sym (in_before j))
    | inr ne ↦ ap (λ x. network_entries x j) (lookup-insert network name m s ∙ rw (ne) refl)
  ]

  lifted-Unchanged : Unchanged n m → (k : Key) → pool (insert network m s) k ≡ pool s k
  lifted-Unchanged keep k = lifted k.0 (k.1, k.2) (λ _. keep (k.1, k.2))

  lifted-Others :
      (k : ℕ × String)
      → ((j : ℕ × String) → (k.0 == j.0 && str_eq k.1 j.1) ≡ false → entries m j ≡ entries n j)
      → Others same_key (network, k.0, k.1) (pool s) (pool (insert network m s))
  lifted-Others k others j ne =
      lifted j.0 (j.1, j.2) (λ e. others (j.1, j.2) (ground (arith, ne, e)))

-- A call at a network, by what it does to the entries of the network.
at_network-Lifts :
    {A : Type 0} (Q : Network → Network → A → Type 0) (R : NetworkSet → A → Type 0)
    (missing : Error) (name : String) (m : M Network Error A) (s : NetworkSet)
    → AllReady s
    → ((n : Network) → IsReady n → Ends (Unchanged n) (Q n) (m n))
    → ((n k : Network) (a : A) → lookup name s ≡ some n → Q n k a → R (insert name k s) a)
    → Ends (λ t. (k : Key) → pool t k ≡ pool s k) R (at_network missing name m s)
at_network-Lifts Q R missing name m s all body lift = elim (Option-cases (lookup name s)) [
  | inl no_ ↦ rw (no_, at_network) (λ k. refl)
  | inr (n, there) ↦
      rw (there, at_network)
        (Ends-put (λ t. (k : Key) → pool t k ≡ pool s k) R (λ k. insert name k s) (m n)
          (Ends-mono (Unchanged n) (Q n) (λ k. (j : Key) → pool (insert name k s) j ≡ pool s j)
            (λ k a. R (insert name k s) a) (m n) (body n (all name n there))
            (λ k keep. lifted-Unchanged s name n k there keep) (λ k a h. lift n k a there h)))
]

answered_lem :
    {A : Type 0} (call : Call) (answer : A → Answer) (s : NetworkSet)
    (o : Outcome NetworkSet Error A)
    → Ends
        (λ t. (k : Key) → pool t k ≡ pool s k)
        (λ t a. Transition (pool s) (pool t) call (answer a))
        o
    → Transition (pool s) (pool (answered answer s o).1) call (answered answer s o).0
answered_lem call answer s (ok t a) h = h
answered_lem call answer s (err t e) h = unmoved h
answered_lem call answer s (fault x) h = elim h [ ]

answered-AllReady :
    {A : Type 0} (R : NetworkSet → A → Type 0) (answer : A → Answer) (s : NetworkSet)
    (o : Outcome NetworkSet Error A)
    → Ends AllReady (λ t a. AllReady t × R t a) o
    → AllReady (answered answer s o).1
answered-AllReady R answer s (ok t a) h = h.0
answered-AllReady R answer s (err t e) h = h
answered-AllReady R answer s (fault x) h = elim h [ ]

module _ (lib : AddressLib) where
  serve-Transition :
      (call : Call) (s : NetworkSet)
      → AllReady s
      → Transition (pool s) (pool (serve lib call s).1) call (serve lib call s).0
  unfolding serve allocate release
  serve-Transition (allocate_call network subnet pod_name pod_namespace) s all =
      answered_lem _ gave s _ (
        at_network-Lifts (λ n k c. Took n k c × ForPod lib pod_name pod_namespace c) _
          missing_network network _ s all
          (λ n r.
            located-Ends _ subnet _ n r
              (λ m i v. allocate_next-Took lib pod_name pod_namespace n m i v))
          (λ n k c there (t, pod).
            took t.key.0 t.key.1 t.reserved (in_before s network n k there t.key ∙ t.free)
              (in_after s network n k there t.key ∙ t.held) pod
              (lifted-Others s network n k there t.key t.others)))
  serve-Transition (release_call network subnet ip) s all =
      answered_lem _ (λ _. done) s _
        (at_network-Lifts (λ n k _. Back ip n k) _ missing_network network _ s all
          (λ n r. located-Ends _ subnet _ n r (λ m i v _. release-Back ip n m i v))
          (λ n k c there t.
            back t.place
              (in_after s network n k there (t.place, ip)
                ∙ t.back
                ∙ ap given_back (sym (in_before s network n k there (t.place, ip))))
              (lifted-Others s network n k there (t.place, ip) t.others)))

  serve-AllReady : (call : Call) (s : NetworkSet) → AllReady s → AllReady (serve lib call s).1
  unfolding serve
  serve-AllReady (allocate_call network subnet pod_name pod_namespace) s all =
      answered-AllReady _ gave s _ (allocate-Ends lib pod_name pod_namespace network subnet s all)
  serve-AllReady (release_call network subnet ip) s all =
      answered-AllReady _ (λ _. done) s _ (release-Ends ip network subnet s all)

  -- From a network set whose networks are ready, any calls of Allocate and Release one after another are
  -- explained by the pool of addresses, with exactly one transition for each call and its answer, in
  -- their order: an Allocate that gives a record puts it, made for the pod, to an address of the named
  -- network that had none; a Release that succeeds takes the record of the named address in one subnet of
  -- the named network, or keeps it as reserved if the address is reserved; a call that fails changes no
  -- entry of the pool, and no call panics or runs out of rounds.
  pub serve_all-Explains :
      (calls : List Call) (s : NetworkSet)
      → AllReady s
      → let (log, t) = serve_all lib calls s in
        (map (λ x. x.0) log ≡ calls) × Explains (pool s) log (pool t)
  unfolding serve_all
  serve_all-Explains [] s all = (refl, at_end)
  serve_all-Explains (call ∷ calls) s all =
      let t = (serve lib call s).1 in
      let (names, rest) = serve_all-Explains calls t (serve-AllReady call s all) in
      (ap (λ cs. call ∷ cs) names, next (serve-Transition call s all) rest)

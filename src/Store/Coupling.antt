-- ===== src/Store/Coupling.antt =====
-- `Couple` of pkg/ipam/store/dualstack_store.go on a server that is as documented.
use hybridnet.Base.{
  ℕ, ◌≡◌, ◌⊎◌, sym, subst, true, false, ◌&&◌, List, [], ◌∷◌, Option, none, some, String, str_eq,
  contains, arith,
}
use hybridnet.Base.Outcome.{Outcome, ok, err, fault}
use hybridnet.Base.Outcome.Ends.{Ends, Ends-mono}
use hybridnet.Store.Types.{Pod, IpInstance, phase_using}
use hybridnet.Store.Client.{Client, ApiError}
use hybridnet.Store.Cluster.{View, Honest, DeletesAnswered, same_key, All, more, instance_names}
use hybridnet.Store.Undo.{Fresh, Fresh-mono, MadeOf, LeftOf, Held, Erased, delete-Held}
use hybridnet.Store.Worker
use hybridnet.Store.Worker.{instance_of, status_of}
use hybridnet.Store.Worker.Dual.{delete_each}

abbrev pub number_of : Option ℕ → ℕ
number_of none = 0
number_of (some n) = n

-- An instance in use by a pod.
abbrev pub in_use : Pod → IpInstance → IpInstance
in_use pod t = record t { status = status_of pod.node_name pod.name pod.namespace phase_using }

module _ {S : Type 0} (v : View S) (s0 : S) (pod : Pod) where
  open v use {instance_at, noted_on}

  -- The notes are as they were, but for one on the pod that is gone.
  abbrev pub Unnoted : S → Type 0
  Unnoted s =
      (k n : String)
      → (noted_on s k n ≡ noted_on s0 k n)
        ⊎ ((same_key pod.namespace pod.name k n ≡ true) × (noted_on s k n ≡ none))

  abbrev pub NotesKept : S → Type 0
  NotesKept s = (k n : String) → noted_on s k n ≡ noted_on s0 k n

  -- After an error: every instance is as it was, or was not there and is being deleted.
  pub record Undone (s : S) : Type 0 where
    pub instances :
        (k n : String) → Fresh (λ t. t.deleted ≡ true) (instance_at s0 k n) (instance_at s k n)
    pub notes : Unnoted s

  -- After a success: the pod uses the instances, and nothing else has changed.
  pub record Coupled (ts : List IpInstance) (text : String) (s : S) : Type 0 where
    pub used : All (λ t. instance_at s pod.namespace t.name ≡ some (in_use pod t)) ts
    pub others :
        (k n : String)
        → str_eq pod.namespace k && contains n (instance_names ts) ≡ false
        → instance_at s k n ≡ instance_at s0 k n
    pub noted : noted_on s pod.namespace pod.name ≡ some text
    pub other_notes :
        (k n : String)
        → same_key pod.namespace pod.name k n ≡ false
        → noted_on s k n ≡ noted_on s0 k n

  -- An instance that a call has made.
  pub record Made (t : IpInstance) : Type 0 where
    pub inside : t.namespace ≡ pod.namespace
    pub new : instance_at s0 pod.namespace t.name ≡ none

  -- The state before an undo.
  pub record Open (names : List String) (s : S) : Type 0 where
    pub held : Held v s0 (MadeOf pod.namespace names) s
    pub notes : Unnoted s

  module _ (c : Client S) (honest : Honest v c) (answered : DeletesAnswered v c) where
    -- The state of the deletes.
    record Closing (ts : List IpInstance) (s : S) : Type 0 where
      pub held : Held v s0 (LeftOf pod.namespace (instance_names ts)) s
      pub notes : Unnoted s
      made : All Made ts

    closed : (s : S) → Closing [] s → Undone s
    unfolding contains
    closed s h = record {
      instances = λ k n. Fresh-mono (λ t m. ground (arith, m)) (h.held k n);
      notes = h.notes;
    }

    after_delete :
        (ts : List IpInstance)
        → ((u : S) → Closing ts u → Ends Undone (λ w _. Undone w) (delete_each c ts u))
        → (o : Outcome S ApiError (Unit {0})) → Ends (Closing ts) (λ u _. Closing ts u) o
        → Ends Undone
            (λ u _. Undone u)
            (elim o [
              | ok u _ ↦ delete_each c ts u
              | err u _ ↦ delete_each c ts u
              | fault x ↦ fault x
            ])
    after_delete ts f (ok u _) k = f u k
    after_delete ts f (err u _) k = f u k
    after_delete ts f (fault x) k = elim k [ ]

    delete_each-Undone :
        (ts : List IpInstance) (s : S)
        → Closing ts s
        → Ends Undone (λ u _. Undone u) (delete_each c ts s)
    unfolding delete_each
    delete_each-Undone [] s h = closed s h
    delete_each-Undone (t ∷ ts) s h = elim h.made [
      | more m ms ↦
          let run : Ends (Closing ts) (λ u _. Closing ts u)
              (Worker.delete_ip c t.namespace t.name s) =
            subst (λ k. Ends (Closing ts) (λ u _. Closing ts u) (Worker.delete_ip c k t.name s))
              (sym m.inside)
              (Ends-mono (Erased v s0 pod.namespace (instance_names ts) s)
                (λ u _. Erased v s0 pod.namespace (instance_names ts) s u) (Closing ts)
                (λ u _. Closing ts u) (Worker.delete_ip c pod.namespace t.name s)
                (delete-Held v s0 pod.namespace (instance_names ts) t.name s h.held m.new c honest
                  answered)
                (λ u k. record { held = k.0; notes = λ x y. rw (k.1 x y) (h.notes x y); made = ms })
                (λ u _ k. record {
                  held = k.0;
                  notes = λ x y. rw (k.1 x y) (h.notes x y);
                  made = ms;
                })) in
          after_delete ts (λ u k. delete_each-Undone ts u k)
            (Worker.delete_ip c t.namespace t.name s) run
    ]

    pub undo :
        (ts : List IpInstance) (s : S)
        → All Made ts
        → Open (instance_names ts) s
        → Ends Undone (λ u _. Undone u) (delete_each c ts s)
    undo ts s made h = delete_each-Undone ts s (record {
      held = λ k n. Fresh-mono (λ t m. ground (arith, m)) (h.held k n);
      notes = h.notes;
      made = made;
    })

-- ===== src/Store/Couple.antt =====
-- `Couple` of pkg/ipam/store/dualstack_store.go as a whole.
use hybridnet.Base.{
  ℕ, ◌≡◌, ◌∙◌, refl, sym, ap, subst, List, [], ◌∷◌, ◌++◌, none, some, String, contains, map,
}
use hybridnet.Base.Outcome.{ok, on_error}
use hybridnet.Base.Outcome.Ends.{Ends, Ends-mono, Ends-bind, on_error-Ends}
use mathlib.Core.List.{append-nil, append_assoc}
use hybridnet.Net.{AddressLib}
use hybridnet.Ipam.Types.{IpInfo}
use hybridnet.Ipam.DualStack.Debts.{Numbered}
use hybridnet.Store.Types.{Pod, IpInstance}
use hybridnet.Store.Client.{Client, TextLib}
use hybridnet.Store.Cluster.{
  View, Same, Written, Honest, DeletesAnswered, has_finalizer, empty, instance_names,
}
use hybridnet.Store.Undo.{untouched}
use hybridnet.Store.Worker
use hybridnet.Store.Worker.{instance_of, status_of}
use hybridnet.Store.Worker.Dual.{delete_each, use_each, bind_pod, couple_from, couple}
use hybridnet.Store.Coupling.{Open, Undone, undo, Coupled, number_of}
use hybridnet.Store.Noting.{Created, Using, use_all, note_all, begin_use, opened, create-Created}

-- The instances of addresses, as they are created.
abbrev pub built : AddressLib → TextLib → List String → Pod → String → List IpInfo → List IpInstance
built lib texts kinds pod mac =
    map (λ ip. instance_of lib texts kinds pod ip mac (number_of ip.net_id))

module _ {S : Type 0} (v : View S) (c : Client S) (honest : Honest v c)
    (answered : DeletesAnswered v c) (lib : AddressLib) (texts : TextLib) (kinds : List String)
    (pod : Pod) (mac : String) (s0 : S) where
  open v use {instance_at, noted_on}

  bind_pod-Ends :
      (ips : List IpInfo) (ts : List IpInstance) (s : S)
      → Created v s0 pod c honest ts s
      → Ends
          (Open v s0 pod (instance_names ts))
          (λ u _. Coupled v s0 pod ts (texts.marshal_ips ips) u)
          (bind_pod c lib texts kinds pod ips ts s)
  unfolding bind_pod
  bind_pod-Ends ips ts s h =
      Ends-bind (Open v s0 pod (instance_names ts)) (λ u _. Using v s0 pod c honest ts [] u)
        (λ u _. Coupled v s0 pod ts (texts.marshal_ips ips) u) (use_each c pod ts s)
        (λ _.
          on_error (Worker.release_ip_from_pod c pod)
            (Worker.patch_text_to_pod c pod (texts.marshal_ips ips)))
        (use_all v s0 pod c honest ts s (begin_use v s0 pod c honest ts s h))
        (λ u _ k. note_all v s0 pod c honest ts (texts.marshal_ips ips) u k)

  create_one :
      (ip : IpInfo) (ts : List IpInstance) (s : S)
      → (n : ℕ) → ip.net_id ≡ some n
      → Created v s0 pod c honest ts s
      → Ends
          (Open v s0 pod (instance_names ts))
          (λ u t.
            (t ≡ instance_of lib texts kinds pod ip mac n)
            × Created v s0 pod c honest (ts ++ t ∷ []) u)
          (Worker.create_ip_with_mac c lib texts kinds pod ip mac s)
  unfolding Worker.create_ip_with_mac instance_of has_finalizer
  create_one ip ts s n e h =
      let t = instance_of lib texts kinds pod ip mac n in
      rw (Worker.create_ip_with_mac, e)
        (Ends-bind (Open v s0 pod (instance_names ts))
          (λ u _.
            (instance_at s pod.namespace t.name ≡ none)
            × Written v pod.namespace t.name (λ _. some t) s u)
          (λ u t'. (t' ≡ t) × Created v s0 pod c honest (ts ++ t' ∷ []) u) (c.create t s)
          (λ _ u. ok u t)
          (Ends-mono (Same v s)
            (λ u _.
              (instance_at s pod.namespace t.name ≡ none)
              × Written v pod.namespace t.name (λ _. some t) s u)
            (Open v s0 pod (instance_names ts))
            (λ u _.
              (instance_at s pod.namespace t.name ≡ none)
              × Written v pod.namespace t.name (λ _. some t) s u)
            (c.create t s) (honest.create t s) (λ u same. opened v s0 pod c honest ts s u h same)
            (λ u _ k. k))
          (λ u _ k. (refl, create-Created v s0 pod c honest ts t s u h refl refl k.0 k.1)))

  couple_from-Ends :
      (ips todo : List IpInfo) (ts : List IpInstance) (s : S)
      → Numbered todo
      → Created v s0 pod c honest ts s
      → Ends
          (Undone v s0 pod)
          (λ u _.
            Coupled v s0 pod (ts ++ built lib texts kinds pod mac todo) (texts.marshal_ips ips) u)
          (couple_from c lib texts kinds pod ips mac todo ts s)
  unfolding couple_from
  couple_from-Ends ips [] ts s _ h =
      subst
        (λ xs.
          Ends (Undone v s0 pod) (λ u _. Coupled v s0 pod xs (texts.marshal_ips ips) u)
            (on_error (delete_each c ts) (bind_pod c lib texts kinds pod ips ts) s))
        (sym (append-nil ts))
        (on_error-Ends (Open v s0 pod (instance_names ts)) (Undone v s0 pod)
          (λ u _. Coupled v s0 pod ts (texts.marshal_ips ips) u) (delete_each c ts)
          (bind_pod c lib texts kinds pod ips ts) s (bind_pod-Ends ips ts s h)
          (λ u k. undo v s0 pod c honest answered ts u h.made k))
  couple_from-Ends ips (ip ∷ todo) ts s (n, e, more_) h =
      Ends-bind (Undone v s0 pod)
        (λ u t.
          (t ≡ instance_of lib texts kinds pod ip mac n)
          × Created v s0 pod c honest (ts ++ t ∷ []) u)
        (λ u _.
          Coupled v s0 pod (ts ++ built lib texts kinds pod mac (ip ∷ todo)) (texts.marshal_ips ips)
            u)
        (on_error (delete_each c ts) (Worker.create_ip_with_mac c lib texts kinds pod ip mac) s)
        (λ t. couple_from c lib texts kinds pod ips mac todo (ts ++ t ∷ []))
        (on_error-Ends (Open v s0 pod (instance_names ts)) (Undone v s0 pod)
          (λ u t.
            (t ≡ instance_of lib texts kinds pod ip mac n)
            × Created v s0 pod c honest (ts ++ t ∷ []) u)
          (delete_each c ts) (Worker.create_ip_with_mac c lib texts kinds pod ip mac) s
          (create_one ip ts s n e h) (λ u k. undo v s0 pod c honest answered ts u h.made k))
        (λ u t k.
          let q : (ts ++ t ∷ []) ++ built lib texts kinds pod mac todo
              ≡ ts ++ built lib texts kinds pod mac (ip ∷ todo) =
            append_assoc ts (t ∷ []) (built lib texts kinds pod mac todo)
            ∙ ap (λ x. ts ++ x ∷ built lib texts kinds pod mac todo)
                (k.0 ∙ ap (λ m. instance_of lib texts kinds pod ip mac (number_of m)) (sym e)) in
          subst
            (λ xs.
              Ends (Undone v s0 pod) (λ w _. Coupled v s0 pod xs (texts.marshal_ips ips) w)
                (couple_from c lib texts kinds pod ips mac todo (ts ++ t ∷ []) u))
            q (couple_from-Ends ips todo (ts ++ t ∷ []) u more_ k.1))

-- On a server that is as documented and that answers the deletes of instances that are there, Couple of
-- a pod and addresses with network numbers does not panic. On success every address has the instance
-- built for it, in use by the pod, the addresses are noted on the pod, and nothing else has changed. On
-- an error every instance is as it was before, or was not there and is being deleted, and no note has
-- changed, but that of the pod may be gone.
pub couple-Ends :
    {S : Type 0} (v : View S) (c : Client S) (honest : Honest v c) (answered : DeletesAnswered v c)
    (lib : AddressLib) (texts : TextLib) (kinds : List String) (pod : Pod) (mac : String)
    (ips : List IpInfo) (s : S)
    → Numbered ips
    → Ends
        (Undone v s pod)
        (λ u _. Coupled v s pod (built lib texts kinds pod mac ips) (texts.marshal_ips ips) u)
        (couple c lib texts kinds pod ips mac s)
unfolding couple contains
couple-Ends v c honest answered lib texts kinds pod mac ips s h =
    couple_from-Ends v c honest answered lib texts kinds pod mac s ips ips [] s h
      (record { held = λ k n. untouched refl; notes = λ k n. refl; made = empty; values = empty })

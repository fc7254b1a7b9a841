-- ===== src/Store/Undo.antt =====
-- What the instances of a cluster are while pkg/ipam/store couples a pod, and after it has undone that.
use hybridnet.Base.{
  ◌≡◌, ◌∙◌, refl, sym, ap, subst, inl, inr, true, false, ◌&&◌, ◌||◌, Option-cases, List, [], ◌∷◌,
  ◌++◌, Option, none, some, String, str_eq, str_eq_refl, contains, contains-append, arith,
}
use hybridnet.Base.Outcome.Ends.{Ends, Ends-mono, Ends-ok}
use hybridnet.Store.Types.{IpInstance, InstanceStatus}
use hybridnet.Store.Client.{Client}
use hybridnet.Store.Cluster.{
  View, Same, Written, Honest, DeletesAnswered, same_key, has_finalizer, on_instance, marked,
  with_status, by_key,
}
use hybridnet.Store.Worker

-- An instance as it was, or one that was not there and has a finalizer.
pub data Fresh (mine : IpInstance → Type 0) (before after : Option IpInstance) : Type 0 where
  untouched : after ≡ before → Fresh mine before after
  fresh :
      (t : IpInstance)
      → before ≡ none
      → after ≡ some t
      → has_finalizer t ≡ true
      → mine t
      → Fresh mine before after

pub Fresh-mono :
    {mine yours : IpInstance → Type 0} {before after : Option IpInstance}
    → ((t : IpInstance) → mine t → yours t)
    → Fresh mine before after
    → Fresh yours before after
Fresh-mono f (untouched e) = untouched e
Fresh-mono f (fresh t b a fin m) = fresh t b a fin (f t m)

-- Where nothing was, what is there now decides.
pub before_none :
    {mine : IpInstance → Type 0} {before after : Option IpInstance}
    → Fresh mine before after
    → after ≡ none
    → before ≡ none
before_none (untouched e) h = sym e ∙ h
before_none (fresh t b a fin m) h = b

-- The instance that is made is one of those named; or it is being deleted, if no name is left for it.
abbrev pub MadeOf : String → List String → String → String → IpInstance → Type 0
MadeOf ns names ns' name _ = str_eq ns ns' && contains name names ≡ true

abbrev pub LeftOf : String → List String → String → String → IpInstance → Type 0
LeftOf ns names ns' name t = t.deleted || (str_eq ns ns' && contains name names) ≡ true

module _ {S : Type 0} (v : View S) (s0 : S) where
  open v use {instance_at, noted_on}

  abbrev pub Held : (String → String → IpInstance → Type 0) → S → Type 0
  Held mine s =
      (ns name : String) → Fresh (mine ns name) (instance_at s0 ns name) (instance_at s ns name)

  pub Same-Held :
      (mine : String → String → IpInstance → Type 0) (s s' : S)
      → Held mine s
      → Same v s s'
      → Held mine s'
  Same-Held mine s s' h same ns name =
      subst (Fresh (mine ns name) (instance_at s0 ns name)) (sym (same.instances ns name))
        (h ns name)

  module _ (ns : String) where
    pub create-Held :
        (names : List String) (t : IpInstance) (s s' : S)
        → Held (MadeOf ns names) s
        → has_finalizer t ≡ true
        → instance_at s ns t.name ≡ none
        → Written v ns t.name (λ _. some t) s s'
        → Held (MadeOf ns (names ++ t.name ∷ [])) s'
    unfolding contains
    create-Held names t s s' h fin free w =
        let wider : (n : String)
            → contains n names ≡ true
            → contains n (names ++ t.name ∷ []) ≡ true =
          λ n e. ground (arith, contains-append n names (t.name ∷ []), e) in
        by_key
          (λ k n.
            Fresh (MadeOf ns (names ++ t.name ∷ []) k n) (instance_at s0 k n) (instance_at s' k n))
          ns t.name
          (fresh t (before_none (h ns t.name) free) w.here fin (
            ground (
              arith,
              contains-append t.name names (t.name ∷ []),
              str_eq_refl t.name,
              str_eq_refl ns,
            )))
          (λ k n ne.
            subst (Fresh _ (instance_at s0 k n)) (sym (w.others k n ne))
              (Fresh-mono (λ u m. ground (arith, m, wider n)) (h k n)))

    -- A patch of an instance that was not there before.
    pub status-Held :
        (names : List String) (name : String) (status : InstanceStatus) (s s' : S)
        → Held (MadeOf ns names) s
        → instance_at s0 ns name ≡ none
        → Written v ns name (on_instance (with_status status)) s s'
        → Held (MadeOf ns names) s'
    unfolding has_finalizer
    status-Held names name status s s' h free w =
        by_key (λ k n. Fresh (MadeOf ns names k n) (instance_at s0 k n) (instance_at s' k n)) ns
          name (patched (h ns name))
          (λ k n ne. subst (Fresh _ (instance_at s0 k n)) (sym (w.others k n ne)) (h k n))
      where
        patched :
            Fresh (MadeOf ns names ns name) (instance_at s0 ns name) (instance_at s ns name)
            → Fresh (MadeOf ns names ns name) (instance_at s0 ns name) (instance_at s' ns name)
        patched (untouched e) =
            untouched (w.here ∙ ap (on_instance (with_status status)) (e ∙ free) ∙ sym free)
        patched (fresh t b a fin m) =
            fresh (record t { status = status }) b
              (w.here ∙ ap (on_instance (with_status status)) a) fin m

    narrower :
        (names : List String) (name k n : String) (t : IpInstance)
        → same_key ns name k n ≡ false
        → LeftOf ns (name ∷ names) k n t
        → LeftOf ns names k n t
    unfolding contains
    narrower names name k n t ne m = ground (arith, ne, m)

    -- What a delete leaves: one name less, and the notes.
    abbrev pub Erased : List String → S → S → Type 0
    Erased names s u = Held (LeftOf ns names) u × ((k n : String) → noted_on u k n ≡ noted_on s k n)

    module _ (names : List String) (name : String) (s : S) (h : Held (LeftOf ns (name ∷ names)) s)
        (free : instance_at s0 ns name ≡ none) where
      delete_ok : (s' : S) → Written v ns name (on_instance marked) s s' → Held (LeftOf ns names) s'
      unfolding marked has_finalizer
      delete_ok s' w =
          by_key (λ k n. Fresh (LeftOf ns names k n) (instance_at s0 k n) (instance_at s' k n)) ns
            name (gone (h ns name))
            (λ k n ne.
              subst (Fresh _ (instance_at s0 k n)) (sym (w.others k n ne))
                (Fresh-mono (λ t. narrower names name k n t ne) (h k n)))
        where
          gone :
              Fresh
                (LeftOf ns (name ∷ names) ns name)
                (instance_at s0 ns name)
                (instance_at s ns name)
              → Fresh (LeftOf ns names ns name) (instance_at s0 ns name) (instance_at s' ns name)
          gone (untouched e) = untouched (w.here ∙ ap (on_instance marked) (e ∙ free) ∙ sym free)
          gone (fresh t b a fin m) =
              fresh (record t { deleted = true }) b
                (w.here ∙ ap (on_instance marked) a ∙ rw (marked, fin) refl) fin refl

      -- A delete that is refused: there was nothing to delete.
      delete_err : instance_at s ns name ≡ none → (s' : S) → Same v s s' → Held (LeftOf ns names) s'
      delete_err nothing s' same =
          Same-Held (LeftOf ns names) s s'
            (by_key (λ k n. Fresh (LeftOf ns names k n) (instance_at s0 k n) (instance_at s k n)) ns
              name (untouched (nothing ∙ sym free))
              (λ k n ne. Fresh-mono (λ t. narrower names name k n t ne) (h k n)))
            same

      module _ (c : Client S) (honest : Honest v c) (answered : DeletesAnswered v c) where
        pub delete-Held :
            Ends (Erased names s) (λ u _. Erased names s u) (Worker.delete_ip c ns name s)
        unfolding Worker.delete_ip
        delete-Held = elim (Option-cases (instance_at s ns name)) [
          | inl nothing ↦
              Ends-mono (Same v s) (λ s' _. Written v ns name (on_instance marked) s s')
                (Erased names s) (λ u _. Erased names s u) _ (honest.delete ns name s)
                (λ u same. (delete_err nothing u same, same.notes))
                (λ u _ w. (delete_ok u w, w.notes))
          | inr (t, there) ↦
              let (u, run) = answered s ns name t there in
              let w =
                Ends-ok (Same v s) (λ s' _. Written v ns name (on_instance marked) s s') _
                  (honest.delete ns name s) run in
              rw (run) (delete_ok u w, w.notes)
        ]

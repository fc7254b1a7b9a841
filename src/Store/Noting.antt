-- ===== src/Store/Noting.antt =====
-- The second half of `Couple` of pkg/ipam/store/dualstack_store.go: the statuses and the annotation.
use hybridnet.Base.{
  ◌≡◌, ◌∙◌, ◌⊎◌, sym, ap, subst, inl, inr, true, Bool-cases, List, [], ◌∷◌, ◌++◌, none, some,
  String, str_eq, str_eq_refl, eq_iff, contains, arith,
}
use hybridnet.Base.Outcome.{on_error}
use hybridnet.Base.Outcome.Ends.{Ends, Ends-mono, on_error-Ends, for_each-Ends}
use hybridnet.Store.Types.{Pod, IpInstance, phase_using}
use hybridnet.Store.Client.{Client}
use hybridnet.Store.Cluster.{
  View, Same, Written, Noted, Honest, same_key, has_finalizer, on_instance, with_status, by_key,
  All, more, All-mono, All-snoc, instance_names-snoc, All-named, instance_names,
}
use hybridnet.Store.Undo.{
  untouched, fresh, before_none, MadeOf, Held, Same-Held, create-Held, status-Held,
}
use hybridnet.Store.Worker
use hybridnet.Store.Worker.{instance_of, status_of}
use hybridnet.Store.Worker.Dual.{use_each}
use hybridnet.Store.Coupling.{Made, Open, NotesKept, Coupled, in_use}

module _ {S : Type 0} (v : View S) (s0 : S) (pod : Pod) where
  open v use {instance_at, noted_on}

  module _ (c : Client S) (honest : Honest v c) where
    -- The state before the loop over the statuses has come to `todo`.
    pub record Using (ts todo : List IpInstance) (s : S) : Type 0 where
      held : Held v s0 (MadeOf pod.namespace (instance_names ts)) s
      notes : NotesKept v s0 pod s
      made : All (Made v s0 pod) todo
      values :
          All
            (λ t.
              (instance_at s pod.namespace t.name ≡ some (in_use pod t))
              ⊎ ((instance_at s pod.namespace t.name ≡ some t)
                  × (contains t.name (instance_names todo) ≡ true)))
            ts

    use_one :
        (ts : List IpInstance) (t : IpInstance) (todo : List IpInstance) (s : S)
        → Using ts (t ∷ todo) s
        → Ends
            (Open v s0 pod (instance_names ts))
            (λ u _. Using ts todo u)
            (Worker.update_ip_status c t pod.node_name pod.name pod.namespace phase_using s)
    unfolding Worker.update_ip_status contains
    use_one ts t todo s h = elim h.made [
      | more m ms ↦
          let status = status_of pod.node_name pod.name pod.namespace phase_using in
          subst
            (λ k.
              Ends (Open v s0 pod (instance_names ts)) (λ u _. Using ts todo u)
                (c.patch_status k t.name status s))
            (sym m.inside)
            (Ends-mono (Same v s)
              (λ u _. Written v pod.namespace t.name (on_instance (with_status status)) s u)
              (Open v s0 pod (instance_names ts)) (λ u _. Using ts todo u)
              (c.patch_status pod.namespace t.name status s)
              (honest.patch_status pod.namespace t.name status s)
              (λ u same. record {
                held = Same-Held v s0 _ s u h.held same;
                notes = λ k n. inl (same.notes k n ∙ h.notes k n);
              })
              (λ u _ w. record {
                held =
                    status-Held v s0 pod.namespace (instance_names ts) t.name status s u h.held
                      m.new w;
                notes = λ k n. w.notes k n ∙ h.notes k n;
                made = ms;
                values =
                    All-mono
                      (λ x e. elim (Bool-cases (str_eq t.name x.name)) [
                        | inl same ↦
                            let q : t.name ≡ x.name = (eq_iff t.name x.name).0 same in
                            let here : instance_at u pod.namespace x.name
                                ≡ on_instance (with_status status)
                                    (instance_at s pod.namespace x.name) =
                              subst
                                (λ n.
                                  instance_at u pod.namespace n
                                  ≡ on_instance (with_status status)
                                      (instance_at s pod.namespace n))
                                q w.here in
                            inl (elim e [
                              | inl used ↦ here ∙ ap (on_instance (with_status status)) used
                              | inr (there, _) ↦ here ∙ ap (on_instance (with_status status)) there
                            ])
                        | inr other ↦
                            let keep = w.others pod.namespace x.name (ground (arith, other)) in
                            elim e [
                              | inl used ↦ inl (keep ∙ used)
                              | inr (there, more_) ↦
                                  inr (keep ∙ there, ground (arith, more_, other))
                            ]
                      ])
                      h.values;
              }))
    ]

    pub use_all :
        (ts : List IpInstance) (s : S)
        → Using ts ts s
        → Ends (Open v s0 pod (instance_names ts)) (λ u _. Using ts [] u) (use_each c pod ts s)
    unfolding use_each
    use_all ts s h =
        for_each-Ends (Open v s0 pod (instance_names ts)) (Using ts)
          (λ t. Worker.update_ip_status c t pod.node_name pod.name pod.namespace phase_using)
          (use_one ts) ts s h

    release_note :
        (names : List String) (s : S)
        → Open v s0 pod names s
        → Ends
            (Open v s0 pod names)
            (λ u _. Open v s0 pod names u)
            (Worker.release_ip_from_pod c pod s)
    unfolding Worker.release_ip_from_pod
    release_note names s h =
        Ends-mono (Same v s) (λ u _. Noted v pod.namespace pod.name none s u) (Open v s0 pod names)
          (λ u _. Open v s0 pod names u) (c.patch_annotation pod.namespace pod.name none s)
          (honest.patch_annotation pod.namespace pod.name none s)
          (λ u same. record {
            held = Same-Held v s0 _ s u h.held same;
            notes = λ k n. rw (same.notes k n) (h.notes k n);
          })
          (λ u _ w. record {
            held = λ k n. rw (w.instances k n) (h.held k n);
            notes =
                by_key
                  (λ k n.
                    (noted_on u k n ≡ noted_on s0 k n)
                    ⊎ ((same_key pod.namespace pod.name k n ≡ true) × (noted_on u k n ≡ none)))
                  pod.namespace pod.name
                  (inr (ground (arith, str_eq_refl pod.namespace, str_eq_refl pod.name), w.here))
                  (λ k n ne. rw (w.others k n ne) (h.notes k n));
          })

    pub note_all :
        (ts : List IpInstance) (text : String) (s : S)
        → Using ts [] s
        → Ends
            (Open v s0 pod (instance_names ts))
            (λ u _. Coupled v s0 pod ts text u)
            (on_error (Worker.release_ip_from_pod c pod) (Worker.patch_text_to_pod c pod text) s)
    unfolding Worker.patch_text_to_pod contains
    note_all ts text s h =
        on_error-Ends (Open v s0 pod (instance_names ts)) (Open v s0 pod (instance_names ts))
          (λ u _. Coupled v s0 pod ts text u) (Worker.release_ip_from_pod c pod)
          (Worker.patch_text_to_pod c pod text) s
          (Ends-mono (Same v s) (λ u _. Noted v pod.namespace pod.name (some text) s u)
            (Open v s0 pod (instance_names ts)) (λ u _. Coupled v s0 pod ts text u)
            (c.patch_annotation pod.namespace pod.name (some text) s)
            (honest.patch_annotation pod.namespace pod.name (some text) s)
            (λ u same. record {
              held = Same-Held v s0 _ s u h.held same;
              notes = λ k n. inl (same.notes k n ∙ h.notes k n);
            })
            (λ u _ w. record {
              used =
                  All-mono
                    (λ t e. elim e [
                      | inl used ↦ w.instances pod.namespace t.name ∙ used
                      | inr (_, absurd_) ↦ absurd (ground (arith, absurd_))
                    ])
                    h.values;
              others = λ k n out. w.instances k n ∙ elim (h.held k n) [
                | untouched e ↦ e
                | fresh t b a fin m ↦ absurd (ground (arith, out, m))
              ];
              noted = w.here;
              other_notes = λ k n ne. w.others k n ne ∙ h.notes k n;
            }))
          (release_note (instance_names ts))

    -- The state once the instances `ts` are made.
    pub record Created (ts : List IpInstance) (s : S) : Type 0 where
      pub held : Held v s0 (MadeOf pod.namespace (instance_names ts)) s
      pub notes : NotesKept v s0 pod s
      pub made : All (Made v s0 pod) ts
      pub values : All (λ t. instance_at s pod.namespace t.name ≡ some t) ts

    pub begin_use : (ts : List IpInstance) (s : S) → Created ts s → Using ts ts s
    begin_use ts s h = record {
      held = h.held;
      notes = h.notes;
      made = h.made;
      values = All-mono (λ t e. inr e) (All-named ts h.values);
    }

    pub opened :
        (ts : List IpInstance) (s u : S)
        → Created ts s
        → Same v s u
        → Open v s0 pod (instance_names ts) u
    opened ts s u h same = record {
      held = Same-Held v s0 _ s u h.held same;
      notes = λ k n. inl (same.notes k n ∙ h.notes k n);
    }

    -- One instance more.
    pub create-Created :
        (ts : List IpInstance) (t : IpInstance) (s u : S)
        → Created ts s
        → t.namespace ≡ pod.namespace
        → has_finalizer t ≡ true
        → instance_at s pod.namespace t.name ≡ none
        → Written v pod.namespace t.name (λ _. some t) s u
        → Created (ts ++ t ∷ []) u
    create-Created ts t s u h inside fin free w = record {
      held =
          subst (λ ns. Held v s0 (MadeOf pod.namespace ns) u) (sym (instance_names-snoc ts t))
            (create-Held v s0 pod.namespace (instance_names ts) t s u h.held fin free w);
      notes = λ k n. w.notes k n ∙ h.notes k n;
      made =
          All-snoc h.made
            (record { inside = inside; new = before_none (h.held pod.namespace t.name) free });
      values =
          All-snoc
            (All-mono
              (λ x e. elim (Bool-cases (str_eq t.name x.name)) [
                | inl same ↦
                    let q : x.name ≡ t.name = sym ((eq_iff t.name x.name).0 same) in
                    let at : instance_at s pod.namespace t.name ≡ some x =
                      subst (λ n. instance_at s pod.namespace n ≡ some x) q e in
                    absurd (cc (at, free))
                | inr other ↦ w.others pod.namespace x.name (ground (arith, other)) ∙ e
              ])
              h.values)
            w.here;
    }

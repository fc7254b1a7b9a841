-- ===== src/Store/Cluster.antt =====
-- What the server does with the calls of pkg/ipam/store, as documented: a request that fails changes
-- nothing; one that succeeds writes the object that it names and no other; an object with a finalizer is
-- marked by a delete, and stays.
use hybridnet.Base.{
  ◌≡◌, refl, ap, subst, inl, inr, Bool, true, false, ◌&&◌, Bool-cases, List, [], ◌∷◌, ◌++◌, Option,
  none, some, String, str_eq, str_eq_refl, eq_iff, contains, map, arith, if◌then◌else◌,
}
use hybridnet.Base.Dict.{insert}
use hybridnet.Base.Outcome.{ok}
use hybridnet.Base.Outcome.Ends.{Ends}
use hybridnet.Store.Types.{IpInstance, InstanceStatus, label_node, label_pod}
use hybridnet.Store.Client.{Client}

-- The instances of the cluster, by namespace and name, and the addresses noted on its pods.
pub record View (S : Type 0) : Type 0 where
  pub instance_at : S → String → String → Option IpInstance
  pub noted_on : S → String → String → Option String

abbrev pub same_key : String → String → String → String → Bool
same_key ns name ns' name' = str_eq ns ns' && str_eq name name'

unfoldable pub has_finalizer : IpInstance → Bool
has_finalizer t = elim t.finalizers [ [] ↦ false | _ ∷ _ ↦ true ]

abbrev pub on_instance : (IpInstance → Option IpInstance) → Option IpInstance → Option IpInstance
on_instance f none = none
on_instance f (some t) = f t

-- What a delete and the patches make of an instance.
unfoldable pub marked : IpInstance → Option IpInstance
unfolding has_finalizer
marked t = if has_finalizer t then some (record t { deleted = true }) else none

abbrev pub with_status : InstanceStatus → IpInstance → Option IpInstance
with_status status t = some (record t { status = status })

unfoldable pub with_labels : String → String → IpInstance → Option IpInstance
with_labels node_name pod_name t =
    some (record t { labels = insert label_pod pod_name (insert label_node node_name t.labels) })

abbrev pub instance_names : List IpInstance → List String
instance_names ts = map (λ t. t.name) ts

pub data All (P : IpInstance → Type 0) : List IpInstance → Type 0 where
  empty : All P []
  more : {t : IpInstance} {ts : List IpInstance} → P t → All P ts → All P (t ∷ ts)

pub All-mono :
    {P Q : IpInstance → Type 0} {ts : List IpInstance}
    → ((t : IpInstance) → P t → Q t)
    → All P ts
    → All Q ts
All-mono f empty = empty
All-mono f (more h hs) = more (f _ h) (All-mono f hs)

pub All-snoc :
    {P : IpInstance → Type 0} {ts : List IpInstance} {t : IpInstance}
    → All P ts
    → P t
    → All P (ts ++ t ∷ [])
All-snoc empty h = more h empty
All-snoc (more k ks) h = more k (All-snoc ks h)

pub instance_names-snoc :
    (ts : List IpInstance) (t : IpInstance)
    → instance_names (ts ++ t ∷ []) ≡ instance_names ts ++ t.name ∷ []
instance_names-snoc [] t = refl
instance_names-snoc (x ∷ ts) t = ap (λ ns. x.name ∷ ns) (instance_names-snoc ts t)

-- The entries know that they are of the list.
pub All-named :
    {P : IpInstance → Type 0} (ts : List IpInstance)
    → All P ts
    → All (λ t. P t × (contains t.name (instance_names ts) ≡ true)) ts
unfolding contains
All-named [] empty = empty
All-named (t ∷ ts) (more k ks) =
    more (k, ground (arith, str_eq_refl t.name))
      (All-mono (λ x h. (h.0, ground (arith, h.1))) (All-named ts ks))

pub All-at :
    {P : IpInstance → Type 0} (ts : List IpInstance)
    → All P ts
    → (name : String) → contains name (instance_names ts) ≡ true
    → (t : IpInstance) × (t.name ≡ name) × P t
unfolding contains
All-at [] empty name h = absurd (ground (arith, h))
All-at (t ∷ ts) (more k ks) name h = elim (Bool-cases (str_eq t.name name)) [
  | inl e ↦ (t, (eq_iff t.name name).0 e, k)
  | inr e ↦ All-at ts ks name (ground (arith, h, e))
]

-- A property of every key that holds of one key and of all others.
pub by_key :
    (P : String → String → Type 0) (ns name : String)
    → P ns name
    → ((ns' name' : String) → same_key ns name ns' name' ≡ false → P ns' name')
    → (ns' name' : String) → P ns' name'
by_key P ns name here others ns' name' = elim (Bool-cases (same_key ns name ns' name')) [
  | inl e ↦
      let p : ns ≡ ns' = (eq_iff ns ns').0 (ground arith) in
      let q : name ≡ name' = (eq_iff name name').0 (ground arith) in
      subst (λ x. P x name') p (subst (P ns) q here)
  | inr e ↦ others ns' name' e
]

module _ {S : Type 0} (v : View S) where
  open v use {instance_at, noted_on}

  -- Nothing has changed.
  pub record Same (s s' : S) : Type 0 where
    pub instances : (ns name : String) → instance_at s' ns name ≡ instance_at s ns name
    pub notes : (ns name : String) → noted_on s' ns name ≡ noted_on s ns name

  -- One instance is written.
  pub record Written (ns name : String) (f : Option IpInstance → Option IpInstance) (s s' : S)
      : Type 0 where
    pub here : instance_at s' ns name ≡ f (instance_at s ns name)
    pub others :
        (ns' name' : String)
        → same_key ns name ns' name' ≡ false
        → instance_at s' ns' name' ≡ instance_at s ns' name'
    pub notes : (ns' name' : String) → noted_on s' ns' name' ≡ noted_on s ns' name'

  -- One pod is noted on.
  pub record Noted (ns name : String) (text : Option String) (s s' : S) : Type 0 where
    pub here : noted_on s' ns name ≡ text
    pub others :
        (ns' name' : String)
        → same_key ns name ns' name' ≡ false
        → noted_on s' ns' name' ≡ noted_on s ns' name'
    pub instances : (ns' name' : String) → instance_at s' ns' name' ≡ instance_at s ns' name'

  pub record Honest (c : Client S) : Type 0 where
    pub create :
        (t : IpInstance) (s : S)
        → Ends
            (Same s)
            (λ s' _.
              (instance_at s t.namespace t.name ≡ none)
              × Written t.namespace t.name (λ _. some t) s s')
            (c.create t s)
    pub delete :
        (ns name : String) (s : S)
        → Ends (Same s) (λ s' _. Written ns name (on_instance marked) s s') (c.delete ns name s)
    pub patch_status :
        (ns name : String) (status : InstanceStatus) (s : S)
        → Ends
            (Same s)
            (λ s' _. Written ns name (on_instance (with_status status)) s s')
            (c.patch_status ns name status s)
    pub patch_labels :
        (ns name node_name pod_name : String) (s : S)
        → Ends
            (Same s)
            (λ s' _. Written ns name (on_instance (with_labels node_name pod_name)) s s')
            (c.patch_labels ns name node_name pod_name s)
    pub patch_annotation :
        (ns name : String) (text : Option String) (s : S)
        → Ends (Same s) (λ s' _. Noted ns name text s s') (c.patch_annotation ns name text s)

  -- A delete of an instance that is there is answered.
  abbrev pub DeletesAnswered : Client S → Type 0
  DeletesAnswered c =
      (s : S) (ns name : String) (t : IpInstance)
      → instance_at s ns name ≡ some t
      → (s' : S) × (c.delete ns name s ≡ ok s' tt)

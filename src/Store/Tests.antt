-- ===== src/Store/Tests.antt =====
-- A small server for pkg/ipam/store, and the theorems applied to it.
use hybridnet.Base.{
  ℕ, ◌≡◌, ◌∙◌, refl, sym, ap, inl, inr, Bool, true, false, Bool-cases, Option-cases, [], ◌∷◌,
  Option, none, some, String, str_eq_refl, arith, if◌then◌else◌,
}
use hybridnet.Base.Outcome.{ok, err}
use hybridnet.Base.Outcome.Ends.{Ends}
use hybridnet.Ipam.Types.{IpInfo}
use hybridnet.Ipam.Subnet.Tests.{toy}
use hybridnet.Store.Types.{Pod, IpInstance}
use hybridnet.Store.Names.{unify_ipv6_address_string, to_ip_format}
use hybridnet.Store.Worker.Dual.{couple}
use hybridnet.Store.Coupling.{Undone, Coupled}
use hybridnet.Store.Couple.{built, couple-Ends}
use hybridnet.Store.Client.{Client, TextLib, not_found, refused, Done}
use hybridnet.Store.Cluster.{
  View, Same, Written, Honest, DeletesAnswered, same_key, on_instance, marked, with_status,
  with_labels,
}

-- The instances and the notes of a server, by namespace and name.
pub record Server : Type 0 where
  pub instances : String → String → Option IpInstance
  pub notes : String → String → Option String

put : {A : Type 0} → (String → String → A) → String → String → A → String → String → A
put f ns name x ns' name' = if same_key ns name ns' name' then x else f ns' name'

put-here :
    {A : Type 0} (f : String → String → A) (ns name : String) (x : A) → put f ns name x ns name ≡ x
unfolding put
put-here f ns name x = ground (arith, str_eq_refl ns, str_eq_refl name)

put-others :
    {A : Type 0} (f : String → String → A) (ns name : String) (x : A) (ns' name' : String)
    → same_key ns name ns' name' ≡ false
    → put f ns name x ns' name' ≡ f ns' name'
unfolding put
put-others f ns name x ns' name' e = rw (e) refl

pub server_view : View Server
server_view = record { instance_at = λ s. s.instances; noted_on = λ s. s.notes }

-- A change of the instance under a name, which must be there.
change : (IpInstance → Option IpInstance) → String → String → Done Server
unfolding put
change f ns name s = elim (s.instances ns name) [
  | none ↦ err s not_found
  | some t ↦ ok (record s { instances = put s.instances ns name (f t) }) tt
]

make : IpInstance → Done Server
unfolding put
make t s = elim (s.instances t.namespace t.name) [
  | none ↦ ok (record s { instances = put s.instances t.namespace t.name (some t) }) tt
  | some _ ↦ err s (refused "already exists")
]

-- Notes are refused by a server that is closed to them.
note : Bool → String → String → Option String → Done Server
unfolding put
note closed ns name text s =
    if closed
    then err s (refused "closed")
    else ok (record s { notes = put s.notes ns name text }) tt

pub server : Bool → Client Server
unfolding change make note marked with_labels
server closed = record {
  create = make;
  delete = change marked;
  get = λ ns name s. elim (s.instances ns name) [ none ↦ err s not_found | some t ↦ ok s t ];
  list_of_pod = λ _ _ s. ok s [];
  list_all = λ _ s. ok s [];
  patch_status = λ ns name status. change (with_status status) ns name;
  patch_labels = λ ns name node_name pod_name. change (with_labels node_name pod_name) ns name;
  patch_unbound = λ _ _ s. ok s tt;
  patch_annotation = note closed;
  patch_network = λ _ _ s. ok s tt;
  patch_subnet = λ _ _ s. ok s tt;
}

same : (s : Server) → Same server_view s s
unfolding server_view
same s = record { instances = λ _ _. refl; notes = λ _ _. refl }

change-Written :
    (f : IpInstance → Option IpInstance) (ns name : String) (s : Server)
    → Ends
        (Same server_view s)
        (λ u _. Written server_view ns name (on_instance f) s u)
        (change f ns name s)
unfolding server_view change
change-Written f ns name s = elim (Option-cases (s.instances ns name)) [
  | inl e ↦ rw (e, change) (same s)
  | inr (t, e) ↦
      rw (e, change)
        (record {
          here = put-here s.instances ns name (f t) ∙ sym (ap (on_instance f) e);
          others = put-others s.instances ns name (f t);
          notes = λ _ _. refl;
        })
]

pub server-Honest : (closed : Bool) → Honest server_view (server closed)
unfolding server server_view make note
server-Honest closed = record {
  create = λ t s. elim (Option-cases (s.instances t.namespace t.name)) [
    | inl e ↦
        rw (e, make)
          (
            refl,
            record {
              here = put-here s.instances t.namespace t.name (some t);
              others = put-others s.instances t.namespace t.name (some t);
              notes = λ _ _. refl;
            },
          )
    | inr (u, e) ↦ rw (e, make) (same s)
  ];
  delete = λ ns name s. change-Written marked ns name s;
  patch_status = λ ns name status s. change-Written (with_status status) ns name s;
  patch_labels =
      λ ns name node_name pod_name s. change-Written (with_labels node_name pod_name) ns name s;
  patch_annotation = λ ns name text s. elim (Bool-cases closed) [
    | inl e ↦ rw (e, note) (same s)
    | inr e ↦
        rw (e, note)
          (record {
            here = put-here s.notes ns name text;
            others = put-others s.notes ns name text;
            instances = λ _ _. refl;
          })
  ];
}

pub server-Answers : (closed : Bool) → DeletesAnswered server_view (server closed)
unfolding server server_view change
server-Answers closed s ns name t e =
    (record s { instances = put s.instances ns name (marked t) }, rw (e, change) refl)

abbrev pub texts : TextLib
texts = record { marshal = λ _. "one"; marshal_ips = λ _. "all"; cidr_string = λ _. "cidr" }

abbrev pub web : Pod
web = record {
  name = "web-0";
  namespace = "shop";
  uid = "u";
  node_name = "node1";
  annotations = [];
  labels = [];
  finalizers = [];
  controller_of = none;
  deleted = false;
  phase = "Pending";
  reason = "";
  containers = [];
  container_statuses = [];
}

address : ℕ → IpInfo
address n = record {
  address = record { ip = some (record { size = 4; num = n }); mask = none };
  gateway = none;
  net_id = some 7;
  subnet = "s1";
  network = "n1";
  pod_name = "web-0";
  pod_namespace = "shop";
  status = "Using";
}

abbrev pub empty_server : Server
empty_server = record { instances = λ _ _. none; notes = λ _ _. none }

-- A server that is closed to notes, which undoes two instances.
couple-Ends_example :
    Ends
      (Undone server_view empty_server web)
      (λ u _.
        Coupled server_view empty_server web
          (built toy texts [] web "mac" (address 1 ∷ address 2 ∷ []))
          "all"
          u)
      (couple (server true) toy texts [] web (address 1 ∷ address 2 ∷ []) "mac" empty_server)
unfolding address
couple-Ends_example =
    couple-Ends server_view (server true) (server-Honest true) (server-Answers true) toy texts []
      web "mac" (address 1 ∷ address 2 ∷ []) empty_server (7, refl, (7, refl, tt))

unify_middle : unify_ipv6_address_string "234e:0:4567::5f" ≡ "234e:0:4567:0:0:0:0:5f"
unfolding unify_ipv6_address_string
unify_middle = refl

-- An address that begins with "::" gets a name that begins with a dash.
unify_front : unify_ipv6_address_string "::5f" ≡ ":0:0:0:0:0:0:5f"
unfolding unify_ipv6_address_string
unify_front = refl

ip_format_v4 : to_ip_format toy "10-0-0-1" ≡ "10.0.0.1"
unfolding to_ip_format
ip_format_v4 = refl

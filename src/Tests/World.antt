-- ===== src/Tests/World.antt =====
-- A cluster of one group that has one instance, and starts a second one when it is asked to. It has a
-- file system that gives back what was last written, and an encoding of the states of its one roll
-- out.
use kubergrunt.Strings.Bytes.{bytes}
use kubergrunt.Prelude.{
  ℕ, String, str_eq, eq_iff, Bool, true, false, Bool-cases, Option, none, some, List, [], ◌∷◌, ◌++◌,
  ◌≡◌, ◌≢◌, refl, sym, ap, ◌∙◌, subst, All, In, ◌⊎◌, inl, inr, if◌then◌else◌, leb, ◌==◌, ◌||◌,
}
use mathlib.Core.List.{flatten, append-nil, reverse}
use native.Mathlib.Decide.{ℕ_discrete}
use kubergrunt.Cloud.Types.{
  Order, Asg, DeployState, AsgGroup, PolicyRule, NetworkInterface, Text, Service,
}
use kubergrunt.Cloud.Failure.{Error, external, max_retries_exceeded, retry_fatal, multiple, of_list}
use kubergrunt.Cloud.Request.{Call, Reply, Answer, reply, failure, History, Env}
use kubergrunt.Cloud.Retry.{Retry, RetryLaws, AfterTry}
use kubergrunt.Cloud.Yields.{IfOk}
use kubergrunt.Cloud.Monad.{Outcome, ok, err, panic, hangs}
use kubergrunt.Kubectl.Config.{initial_blank_kubeconfig}
use kubergrunt.Eks.Deploy.{default_state_file}
use kubergrunt.Cloud.Collections.{FindsJust}
use kubergrunt.Eks.Deploy.Trace.{Requested, EnvLaws}

string_dec : Discrete String
string_dec a b = elim (Bool-cases (str_eq a b)) [
  | inl e ↦ yes ((eq_iff a b).0 e)
  | inr e ↦ no (λ same. differs ((eq_iff a b).1 same) e)
]
  where
    differs : {x : Bool} → x ≡ true → x ≡ false → ⊥
    differs t f = cc

Asg-discrete : Discrete Asg
Asg-discrete = hlevel (ℕ_discrete, string_dec)

pub State-discrete : Discrete DeployState
State-discrete = hlevel (ℕ_discrete, string_dec)

-- The group at the time it is looked up, with the size to scale up to and the new instances.
abbrev pub group : ℕ → List String → Asg
group max_capacity new_instances = record {
  name = "workers";
  original_capacity = 1;
  max_capacity_for_update = max_capacity;
  original_max_capacity = 1;
  original_instances = "i-1" ∷ [];
  new_instances = new_instances;
}

-- Has the stage been done?
abbrev pub done_from : ℕ → ℕ → Bool
done_from stage n = leb stage n

-- The state after a number of stages.
abbrev pub after : ℕ → Asg → DeployState
after n asg = record {
  gather_asg_info_done = true;
  set_max_capacity_done = done_from 2 n;
  scale_up_done = done_from 3 n;
  wait_for_nodes_done = done_from 4 n;
  cordon_nodes_done = done_from 5 n;
  drain_nodes_done = done_from 6 n;
  detach_instances_done = done_from 7 n;
  terminate_instances_done = done_from 8 n;
  restore_capacity_done = false;
  path = default_state_file;
  asgs = asg ∷ [];
}

-- The states of the roll out, by the text that stands for them.
abbrev known_states : List (String × DeployState)
known_states =
    ("after-1", after 1 (group 0 []))
    ∷ ("after-2", after 2 (group 2 []))
    ∷ ("after-3", after 3 (group 2 ("i-2" ∷ [])))
    ∷ ("after-4", after 4 (group 2 ("i-2" ∷ [])))
    ∷ ("after-5", after 5 (group 2 ("i-2" ∷ [])))
    ∷ ("after-6", after 6 (group 2 ("i-2" ∷ [])))
    ∷ ("after-7", after 7 (group 2 ("i-2" ∷ [])))
    ∷ ("after-8", after 8 (group 2 ("i-2" ∷ [])))
    ∷ []

abbrev decode : List (String × DeployState) → String → Answer DeployState
decode [] text = failure (external "no JSON")
decode ((name, state) ∷ states) text = if str_eq name text then reply state else decode states text

-- The first text that stands for the state.
abbrev encode : List (String × DeployState) → DeployState → Answer String
encode [] s = failure (external "not known")
encode ((name, state) ∷ states) s = elim (State-discrete state s) [
  | yes _ ↦ reply name
  | no _ ↦ encode states s
]

abbrev last_written : String → History → Option String
last_written path [] = none
last_written path (e ∷ h) =
    let rest = last_written path h in
    elim e.request [
      | Call.write_file p bytes ↦ if str_eq p path then some bytes else rest
      | _ ↦ rest
    ]

abbrev scaled : History → Bool
scaled [] = false
scaled (e ∷ h) =
    let rest = scaled h in elim e.request [ Call.set_desired_capacity _ _ ↦ true | _ ↦ rest ]

abbrev current_group : Bool → AsgGroup
current_group false = record { desired_capacity = 1; max_size = 1; instance_ids = some "i-1" ∷ [] }
current_group true = record {
  desired_capacity = 2;
  max_size = 2;
  instance_ids = some "i-1" ∷ some "i-2" ∷ [];
}

abbrev from_option : {A : Type 0} → Option A → Answer A
from_option none = failure (external "not found")
from_option (some a) = reply a

abbrev contains : List String → String → Bool
contains [] id = false
contains (x ∷ xs) id = if str_eq x id then true else contains xs id

abbrev one_batch : List String → ℕ → List (List String)
one_batch [] n = []
one_batch (id ∷ ids) n = (id ∷ ids) ∷ []

abbrev joined : List String → String
joined [] = ""
joined (home ∷ parts) = if str_eq home "/root" then "/root/.kube/config" else home

abbrev append_all : List Error → Option Error
append_all [] = none
append_all (e ∷ es) = some (multiple (of_list (e ∷ es)))

-- A service with a classic load balancer.
abbrev pub web_service : Service
web_service = record {
  name = "web";
  service_type = "LoadBalancer";
  annotations = [];
  ingress_hostnames = (b'w' ∷ b'-' ∷ b'1' ∷ b'.' ∷ b'x' ∷ []) ∷ [];
}

-- The rules of a cluster role that may list endpoint slices, and not watch them.
abbrev pub old_rules : List PolicyRule
old_rules =
    (record {
      api_groups = "discovery.k8s.io" ∷ [];
      resources = "*" ∷ [];
      verbs = "list" ∷ [];
      resource_names = [];
      non_resource_urls = [];
    })
    ∷ []

-- A network interface that is in use.
abbrev pub attached_interface : NetworkInterface
attached_interface = record {
  network_interface_id = some "eni-1";
  attachment = some (record { attachment_id = some "attach-1"; status = some "attached" });
}

-- "1-eksbuild"
abbrev pub build_base : Text
build_base = b'1' ∷ b'-' ∷ b'e' ∷ b'k' ∷ b's' ∷ b'b' ∷ b'u' ∷ b'i' ∷ b'l' ∷ b'd' ∷ []

abbrev same_text : Text → Text → Bool
same_text [] [] = true
same_text (a ∷ s) (b ∷ t) = let rest = same_text s t in if a == b then rest else false
same_text _ _ = false

-- The repository of images has builds 2 and 4.
abbrev pub has_tag : Text → Bool
has_tag tag =
    same_text tag (b'v' ∷ (build_base ++ (b'.' ∷ b'2' ∷ [])))
    || same_text tag (b'v' ∷ (build_base ++ (b'.' ∷ b'4' ∷ [])))

abbrev respond : History → (c : Call) → Answer (Reply c)
respond h (Call.describe_auto_scaling_groups _) = reply (current_group (scaled h) ∷ [])
respond h (Call.describe_instances ids _) = reply (record {
  reservations = (record { private_dns_name = some "node" } ∷ []) ∷ [];
  next_token = none;
})
respond h Call.list_nodes = reply (
    record { name = "node"; conditions = record { condition_type = "Ready"; status = "True" } ∷ [] }
    ∷ [])
respond h (Call.list_services _) = reply (record { items = web_service ∷ []; continue_token = "" })
respond h (Call.load_http_client_with_ca _) = reply tt
respond h (Call.head _) = reply 403
respond h (Call.describe_network_interfaces_of_group group) =
    reply (if str_eq group "sg-1" then attached_interface ∷ [] else [])
respond h (Call.describe_network_interface _) =
    failure (external "InvalidNetworkInterfaceID.NotFound")
respond h (Call.describe_attachment _) = reply none
respond h (Call.detach_network_interface _) = reply tt
respond h (Call.delete_network_interface _) = reply tt
respond h (Call.describe_security_groups _ _) = reply (record { group_id = some "sg-2" } ∷ [])
respond h (Call.delete_security_group _) = reply tt
respond h (Call.read_file path) = from_option (last_written path h)
respond h (Call.describe_load_balancers _) = reply (some "arn" ∷ [])
respond h (Call.describe_target_groups _) =
    reply (record { target_group_name = "group"; target_group_arn = "arn" } ∷ [])
respond h (Call.describe_target_health _) = failure (external "AccessDenied")
respond h (Call.get_manifest _ _ _ tag) = reply (if has_tag tag then 200 else 404)
respond h (Call.describe_cluster _) = reply (
    some (record {
      arn = some "arn";
      status = "ACTIVE";
      endpoint = "https://cluster";
      certificate_authority = "pem";
      version = "1.34";
    }))
respond h (Call.get_token _) = reply "token"
respond h (Call.run_shell_command _ _) = reply ""
respond h Call.temp_file = reply "/tmp/config"
respond h Call.get_authorization_token = reply (some "token" ∷ [])
respond h (Call.get_daemon_set _ _) = reply (bytes "old" ∷ [])
respond h (Call.patch_daemon_set _ _ _) = reply tt
respond h (Call.get_deployment _ _) = reply (bytes "old" ∷ [])
respond h (Call.patch_deployment _ _ _) = reply tt
respond h (Call.get_config_map namespace _) =
    reply (record { namespace = namespace; entries = ("Corefile", "proxy . 8.8.8.8") ∷ [] })
respond h (Call.update_config_map _) = reply tt
respond h (Call.create_file _) = reply tt
respond h (Call.write_line _ _) = reply tt
respond h (Call.temp_dir _) = reply "/tmp/sync"
respond h (Call.remove_all _) = reply tt
respond h (Call.http_get _) = reply (bytes "region: us-west-2" ∷ [], none)
respond h Call.home_dir = reply "/root"
respond h (Call.set_desired_capacity _ _) = reply tt
respond h (Call.update_auto_scaling_group _ _) = reply tt
respond h (Call.detach_instances _ _) = reply tt
respond h (Call.terminate_instances _) = reply tt
respond h (Call.wait_until_instance_terminated _) = reply tt
respond h (Call.wait_until_any_instance_in_service _ _) = reply tt
respond h (Call.load_client_config _ _) = reply tt
respond h (Call.new_for_config _ _ _) = reply tt
respond h (Call.new_session _) = reply tt
respond h (Call.get_cluster_role _) = reply old_rules
respond h (Call.update_cluster_role _ _) = reply tt
respond h Call.new_token_generator = reply tt
respond h (Call.modify_config _ _) = reply tt
respond h (Call.write_file _ _) = reply tt
respond h (Call.remove_file _) = reply tt
respond h (Call.close_file _) = reply tt
respond h (Call.mkdir_all _) = reply tt
respond h (Call.sleep _) = reply tt

abbrev pub world : Env
world = record {
  respond = respond;
  list_contains_element = contains;
  batch_list_into_groups_of = one_batch;
  marshal = encode known_states;
  unmarshal = decode known_states;
  append_to_error = λ e. e ∷ [];
  append_error = λ es e. es ++ (e ∷ []);
  error_or_nil = append_all;
  parse_arn = λ _. reply (record { region = "eu-west-1"; resource = [] });
  decode_string = reply;
  dir = λ path. path;
  path_join = joined;
  duration_string = λ n. "15m0s";
  semver_make = λ version. reply version;
  semver_compare = λ version other. Order.newer;
  replace_all_string = λ pattern text replacement. reply replacement;
  marshal_patches = λ patches. reply "[]";
  scheduled = λ h goroutines. reverse goroutines;
  max_pages = 10;
}

-- No later entry has the name.
abbrev Fresh : String → List (String × DeployState) → Type 0
Fresh name = All (λ entry. str_eq name entry.0 ≡ false)

abbrev Distinct : List (String × DeployState) → Type 0
Distinct [] = Unit
Distinct ((name, _) ∷ states) = Fresh name states × Distinct states

reply_inj : {A : Type 0} {a b : A} → Answer.reply a ≡ reply b → a ≡ b
reply_inj e = cc

some_inj : {A : Type 0} {a b : A} → Option.some a ≡ some b → a ≡ b
some_inj e = cc

abbrev encoded : String → {A : Type 0} → Dec A → Answer String → Answer String
encoded n d rest = elim d [ yes _ ↦ reply n | no _ ↦ rest ]

fresh_step :
    {A : Type 0} (name n text : String) (d : Dec A) (rest : Answer String)
    → str_eq name n ≡ false
    → (rest ≡ reply text → str_eq name text ≡ false)
    → encoded n d rest ≡ reply text
    → str_eq name text ≡ false
fresh_step name n text (yes _) rest fresh other e =
    subst (λ t. str_eq name t ≡ false) (reply_inj e) fresh
fresh_step name n text (no _) rest fresh other e = other e

encode-Fresh :
    (name : String) (states : List (String × DeployState)) (s : DeployState) (text : String)
    → Fresh name states
    → encode states s ≡ reply text
    → str_eq name text ≡ false
encode-Fresh name [] s text fresh e = cc
encode-Fresh name ((n, state) ∷ states) s text fresh e =
    fresh_step name n text (State-discrete state s) (encode states s) fresh.0
      (encode-Fresh name states s text fresh.1) e

decode_step :
    (n text : String) (state s : DeployState) (d : Dec (state ≡ s)) (rest : Answer String)
    (states : List (String × DeployState))
    → (rest ≡ reply text → str_eq n text ≡ false)
    → (rest ≡ reply text → decode states text ≡ reply s)
    → encoded n d rest ≡ reply text
    → decode ((n, state) ∷ states) text ≡ reply s
decode_step n text state s (yes same) rest states fresh other e =
    rw ((eq_iff n text).1 (reply_inj e)) (ap reply same)
decode_step n text state s (no _) rest states fresh other e = rw (fresh e) (other e)

decode-encode :
    (states : List (String × DeployState)) (s : DeployState) (text : String)
    → Distinct states
    → encode states s ≡ reply text
    → decode states text ≡ reply s
decode-encode [] s text distinct e = cc
decode-encode ((n, state) ∷ states) s text distinct e =
    decode_step n text state s (State-discrete state s) (encode states s) states
      (encode-Fresh n states s text distinct.0) (decode-encode states s text distinct.1) e

by_request :
    {R : Type 0} (c : Call) (path bytes : String) (rest : Option String)
    → (rest ≡ some bytes → R)
    → (elim c as (λ _. Option String) [
      | Call.write_file p b ↦ if str_eq p path then some b else rest
      | _ ↦ rest
    ])
      ≡ some bytes
    → (c ≡ Call.write_file path bytes) ⊎ R
by_request (Call.write_file p b) path bytes rest earlier e = elim (Bool-cases (str_eq p path)) [
  | inl same ↦ inl (
      ap (λ q. Call.write_file q b) ((eq_iff p path).0 same)
      ∙ ap (Call.write_file path) (some_inj (rw same at e)))
  | inr other ↦ inr (earlier (rw other at e))
]
by_request _ path bytes rest earlier e = inr (earlier e)

last_written-Requested :
    (h : History) (path bytes : String)
    → last_written path h ≡ some bytes
    → Requested (Call.write_file path bytes) h
last_written-Requested [] path bytes e = cc
last_written-Requested (ev ∷ h) path bytes e =
    by_request ev.request path bytes (last_written path h) (last_written-Requested h path bytes) e

found : {A : Type 0} (o : Option A) (a : A) → from_option o ≡ reply a → o ≡ some a
found none a e = cc
found (some b) a e = ap some (reply_inj e)

one_batch-flatten : (ids : List String) (n : ℕ) → n ≢ 0 → flatten (one_batch ids n) ≡ ids
unfolding flatten
one_batch-flatten [] n h = refl
one_batch-flatten (id ∷ ids) n h = append-nil (id ∷ ids)

blank_is_unknown : (s : DeployState) → world.unmarshal initial_blank_kubeconfig ≡ reply s → ⊥
blank_is_unknown s e = cc

-- The same world, in which every request fails.
abbrev pub broken : Env
broken = record world { respond = λ h c. failure (external "RequestLimitExceeded") }

pub world-EnvLaws : EnvLaws world
world-EnvLaws = record {
  unmarshal-marshal = λ s bytes e. decode-encode known_states s bytes distinct e;
  blank_is_no_state = blank_is_unknown;
  reads_written = λ h path bytes s e _. last_written-Requested h path bytes (found _ bytes e);
  flatten-batches = one_batch-flatten;
}
  where
    distinct : Distinct known_states
    distinct = (
      (refl, (refl, (refl, (refl, (refl, (refl, (refl, tt))))))),
      (
        (refl, (refl, (refl, (refl, (refl, (refl, tt)))))),
        (
          (refl, (refl, (refl, (refl, (refl, tt))))),
          (
            (refl, (refl, (refl, (refl, tt)))),
            ((refl, (refl, (refl, tt))), ((refl, (refl, tt)), ((refl, tt), (tt, tt)))),
          ),
        ),
      ),
    )

-- A retry library that never sleeps: it runs the action once.
abbrev once_outcome : Outcome (Unit {0}) → Outcome (Unit {0})
once_outcome (ok a) = ok a
once_outcome (err (retry_fatal e)) = err (retry_fatal e)
once_outcome (err e) = err max_retries_exceeded
once_outcome panic = panic
once_outcome hangs = hangs

abbrev pub once : Retry
once = record { do_with_retry = λ n sleep action h. (once_outcome (action h).0, (action h).1) }

once_settles :
    (P Q : History → Type 0) (r : Outcome (Unit {0})) (h : History)
    → AfterTry P Q r h
    → IfOk (λ _ h'. Q h') (once_outcome r) h
once_settles P Q (ok a) h k = k
once_settles P Q (err (retry_fatal e)) h k = tt
once_settles P Q (err _) h k = tt
once_settles P Q panic h k = tt
once_settles P Q hangs h k = tt

pub once-RetryLaws : RetryLaws once
once-RetryLaws = record {
  stops_on_success = λ n sleep action h h' e. rw e refl;
  stops_on_fatal = λ n sleep action h h' x e. rw e refl;
  only_runs_action = λ R here more n sleep action runs h. runs h;
  returns_with_action =
      λ P Q n sleep action step h p. once_settles P Q (action h).0 (action h).1 (step h p);
}

found-In : (list : List String) (x : String) → world.list_contains_element list x ≡ true → In x list
found-In [] x e = cc
found-In (y ∷ list) x e = elim (Bool-cases (str_eq y x)) [
  | inl same ↦ inl (sym ((eq_iff y x).0 same))
  | inr other ↦ inr (found-In list x (rw other at e))
]

In-found : (list : List String) (x : String) → In x list → world.list_contains_element list x ≡ true
In-found [] x never = absurd never
In-found (y ∷ list) x (inl same) = rw ((eq_iff y x).1 (sym same)) refl
In-found (y ∷ list) x (inr later) = elim (Bool-cases (str_eq y x)) [
  | inl same ↦ rw same refl
  | inr other ↦ rw other (In-found list x later)
]

pub world-FindsJust : FindsJust world
world-FindsJust = record { finds_just = λ list x. (found-In list x, In-found list x) }

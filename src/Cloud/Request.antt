-- ===== src/Cloud/Request.antt =====
-- The requests that the program makes, with the type of each reply, and the record of the code
-- that the program calls and does not implement.
use kubergrunt.Prelude.{ℕ, String, Bool, true, false, List, Option}
use kubergrunt.Cloud.Types.{
  Text, AsgGroup, InstancePage, Node, ServicePage, PolicyRule, Attachment, NetworkInterface,
  SecurityGroup, TargetGroup, ConfigMap, PatchString, Order, DeployState, Arn, Cluster, KubeConfig,
}
use kubergrunt.Cloud.Failure.{Error}

pub data Call : Type 0 where
  -- AWS Auto Scaling
  describe_auto_scaling_groups : String → Call
  set_desired_capacity : String → ℕ → Call
  update_auto_scaling_group : String → ℕ → Call
  detach_instances : String → List String → Call
  -- AWS EC2
  describe_instances : List String → Option String → Call
  terminate_instances : List String → Call
  wait_until_instance_terminated : List String → Call
  -- network interfaces by the group, and by an id; the attachment of one
  describe_network_interfaces_of_group : String → Call
  describe_network_interface : Option String → Call
  describe_attachment : Option String → Call
  detach_network_interface : String → Call
  delete_network_interface : Option String → Call
  -- security groups by a VPC and a cluster
  describe_security_groups : String → Text → Call
  delete_security_group : String → Call
  -- AWS load balancers
  wait_until_any_instance_in_service : Text → List String → Call
  describe_load_balancers : Text → Call
  describe_target_groups : String → Call
  describe_target_health : String → Call
  -- AWS ECR
  get_manifest : String → Text → Text → Text → Call
  get_authorization_token : Call
  -- Kubernetes
  -- clientcmd's ClientConfig from a file and a context, then kubernetes.NewForConfig
  load_client_config : String → String → Call
  new_for_config : String → String → String → Call
  list_nodes : Call
  list_services : String → Call
  -- A cluster role by its name, with its rules
  get_cluster_role : String → Call
  update_cluster_role : String → List PolicyRule → Call
  -- A daemon set or a deployment by its namespace and its name, with the images of its containers,
  -- and a JSON patch of it
  get_daemon_set : String → String → Call
  patch_daemon_set : String → String → String → Call
  get_deployment : String → String → Call
  patch_deployment : String → String → String → Call
  get_config_map : String → String → Call
  update_config_map : ConfigMap → Call
  -- AWS credentials, EKS, and the IAM authenticator
  new_session : String → Call
  describe_cluster : Text → Call
  new_token_generator : Call
  get_token : Text → Call
  -- loadHttpClientWithCA, and a HEAD request with the client, which is answered by a status
  load_http_client_with_ca : String → Call
  head : String → Call
  -- A shell command with its arguments
  run_shell_command : String → List String → Call
  -- clientcmd.ModifyConfig
  modify_config : String → KubeConfig → Call
  -- Files
  read_file : String → Call
  write_file : String → String → Call
  remove_file : String → Call
  temp_file : Call
  close_file : String → Call
  mkdir_all : String → Call
  create_file : String → Call
  write_line : String → Text → Call
  temp_dir : String → Call
  remove_all : String → Call
  -- http.Get, with the lines of the body and the error with which their scan ends
  http_get : String → Call
  -- homedir.Dir
  home_dir : Call
  -- time.Sleep
  sleep : ℕ → Call

abbrev pub Reply : Call → Type 0
Reply (Call.describe_auto_scaling_groups _) = List AsgGroup
Reply (Call.describe_instances _ _) = InstancePage
Reply (Call.describe_network_interfaces_of_group _) = List NetworkInterface
Reply (Call.describe_attachment _) = Option Attachment
Reply (Call.describe_security_groups _ _) = List SecurityGroup
Reply (Call.describe_load_balancers _) = List (Option String)
Reply (Call.describe_target_groups _) = List TargetGroup
Reply (Call.describe_target_health _) = List (Option String)
Reply (Call.get_manifest _ _ _ _) = ℕ
Reply Call.list_nodes = List Node
Reply (Call.list_services _) = ServicePage
Reply (Call.get_cluster_role _) = List PolicyRule
Reply (Call.describe_cluster _) = Option Cluster
Reply (Call.get_token _) = String
Reply (Call.head _) = ℕ
Reply (Call.run_shell_command _ _) = String
Reply (Call.read_file _) = String
Reply Call.get_authorization_token = List (Option String)
Reply (Call.get_daemon_set _ _) = List Text
Reply (Call.get_deployment _ _) = List Text
Reply (Call.get_config_map _ _) = ConfigMap
Reply (Call.temp_dir _) = String
Reply (Call.http_get _) = List Text × Option Error
Reply Call.temp_file = String
Reply Call.home_dir = String
Reply _ = Unit

-- What a request, or a library function that can fail, comes back with.
pub data Answer (A : Type 0) : Type 0 where
  reply : A → Answer A
  failure : Error → Answer A

abbrev pub succeeds : {A : Type 0} → Answer A → Bool
succeeds (reply a) = true
succeeds (failure e) = false

pub record Event : Type 0 where
  pub request : Call
  pub succeeded : Bool

-- The requests made so far, the latest first.
abbrev pub History : Type 0
History = List Event

-- The world outside the program: how each request is answered, which may depend on all requests
-- made before, and the library functions that the program calls.
pub record Env : Type 0 where
  pub respond : History → (c : Call) → Answer (Reply c)
  -- go-commons collections
  pub list_contains_element : List String → String → Bool
  pub batch_list_into_groups_of : List String → ℕ → List (List String)
  -- encoding of DeployState as JSON
  pub marshal : DeployState → Answer String
  pub unmarshal : String → Answer DeployState
  -- hashicorp/go-multierror: Append on an error that is no multierror, Append, ErrorOrNil
  pub append_to_error : Error → List Error
  pub append_error : List Error → Error → List Error
  pub error_or_nil : List Error → Option Error
  -- aws/arn.Parse
  pub parse_arn : String → Answer Arn
  -- encoding/base64
  pub decode_string : String → Answer String
  -- path/filepath.Dir, path/filepath.Join
  pub dir : String → String
  pub path_join : List String → String
  -- time.Duration.String
  pub duration_string : ℕ → String
  -- blang/semver: Make, with the text of the parsed version, and Compare
  pub semver_make : Text → Answer Text
  pub semver_compare : Text → Text → Order
  -- regexp.Compile of a pattern, and ReplaceAllString
  pub replace_all_string : String → String → String → Answer String
  -- encoding of a JSON patch
  pub marshal_patches : List PatchString → Answer String
  -- In which order the goroutines run that are started at some time, each numbered by its place.
  pub scheduled : History → List (ℕ × String) → List (ℕ × String)
  -- How many pages of one listing are read before the model gives up.
  pub max_pages : ℕ

-- ===== src/Cloud/Types.antt =====
-- The data of the AWS and Kubernetes APIs that the program reads, cut down to the fields it uses,
-- and the records that several of its packages share (kubectl/options.go, kubectl/types.go,
-- eks/deploy_state.go).
use kubergrunt.Prelude.{ℕ, String, Bool, Option, List}

-- A host or load balancer name, as its bytes.
abbrev pub Text : Type 0
Text = List ℕ

-- A Go map with string keys.
abbrev pub Dict : Type 0
Dict = List (String × String)

-- autoscaling.Group. The capacities are int64 patterns.
pub record AsgGroup : Type 0 where
  pub desired_capacity : ℕ
  pub max_size : ℕ
  pub instance_ids : List (Option String)

-- ec2.Instance
pub record Ec2Instance : Type 0 where
  pub private_dns_name : Option String

-- ec2.DescribeInstancesOutput
pub record InstancePage : Type 0 where
  pub reservations : List (List Ec2Instance)
  pub next_token : Option String

-- corev1.Condition of a node or a pod.
pub record Condition : Type 0 where
  pub condition_type : String
  pub status : String

-- corev1.Node
pub record Node : Type 0 where
  pub name : String
  pub conditions : List Condition

-- corev1.Service
pub record Service : Type 0 where
  pub name : String
  pub service_type : String
  pub annotations : Dict
  pub ingress_hostnames : List Text

-- corev1.ServiceList
pub record ServicePage : Type 0 where
  pub items : List Service
  pub continue_token : String

-- ec2.NetworkInterfaceAttachment, ec2.NetworkInterface and ec2.SecurityGroup
pub record Attachment : Type 0 where
  pub attachment_id : Option String
  pub status : Option String

pub record NetworkInterface : Type 0 where
  pub network_interface_id : Option String
  pub attachment : Option Attachment

pub record SecurityGroup : Type 0 where
  pub group_id : Option String

-- rbacv1.PolicyRule
pub record PolicyRule : Type 0 where
  pub api_groups : List String
  pub resources : List String
  pub verbs : List String
  -- where there are any, the rule is about the resources of these names alone
  pub resource_names : List String
  pub non_resource_urls : List String

-- corev1.ConfigMap
pub record ConfigMap : Type 0 where
  pub namespace : String
  pub entries : Dict

-- jsonpatch.PatchString
pub record PatchString : Type 0 where
  pub op : String
  pub path : String
  pub value : Text

-- How a version compares with another.
pub data Order : Type 0 where
  older same newer : Order

-- The state of the deploy command that is written to disk: the exported fields of DeployState.
pub record Asg : Type 0 where
  pub name : String
  pub original_capacity : ℕ
  pub max_capacity_for_update : ℕ
  pub original_max_capacity : ℕ
  pub original_instances : List String
  pub new_instances : List String

pub record DeployState : Type 0 where
  pub gather_asg_info_done : Bool
  pub set_max_capacity_done : Bool
  pub scale_up_done : Bool
  pub wait_for_nodes_done : Bool
  pub cordon_nodes_done : Bool
  pub drain_nodes_done : Bool
  pub detach_instances_done : Bool
  pub terminate_instances_done : Bool
  pub restore_capacity_done : Bool
  pub path : String
  pub asgs : List Asg

-- kubectl.AuthScheme
pub data AuthScheme : Type 0 where
  config_based direct_auth eks_cluster_based : AuthScheme

-- kubectl.KubectlOptions
pub record KubectlOptions : Type 0 where
  pub context_name : String
  pub config_path : String
  pub server : String
  pub base64_pem_certificate_authority : String
  pub bearer_token : String
  pub eks_cluster_arn : String

-- kubectl.ELBType
pub data ElbType : Type 0 where
  alb nlb clb unknown_elb : ElbType

-- kubectl.ELBTargetType
pub data ElbTargetType : Type 0 where
  instance_target ip_target unknown_elb_target : ElbTargetType

-- kubectl.AWSLoadBalancer
pub record AwsLoadBalancer : Type 0 where
  pub name : Text
  pub type_ : ElbType
  pub target_type : ElbTargetType

-- elbv2.TargetGroup
pub record TargetGroup : Type 0 where
  pub target_group_name : String
  pub target_group_arn : String

-- arn.ARN
pub record Arn : Type 0 where
  pub region : String
  pub resource : Text

-- eks.Cluster
pub record Cluster : Type 0 where
  pub arn : Option String
  pub status : String
  pub endpoint : String
  pub certificate_authority : String
  pub version : String

-- api.Config of client-go: the maps of clusters (server and CA data), of auth infos (token), and of
-- contexts (cluster and auth info).
pub record KubeConfig : Type 0 where
  pub clusters : List (String × (String × String))
  pub auth_infos : List (String × String)
  pub contexts : List (String × (String × String))
  pub current_context : String

-- pkix.Name
pub record PkixName : Type 0 where
  pub common_name : String
  pub organization : List String
  pub organizational_unit : List String
  pub locality : List String
  pub province : List String
  pub country : List String

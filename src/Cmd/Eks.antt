-- ===== src/Cmd/Eks.antt =====
-- cmd/eks.go: the commands on EKS clusters, from the flags to the operations.
pub mod Refused
use kubergrunt.Prelude.{ℕ, String, List, [], ◌∷◌}
use kubergrunt.Cloud.Failure.{exactly_one_asg, required_args}
use kubergrunt.Cloud.Request.{Env}
use kubergrunt.Cloud.Retry.{Retry}
use kubergrunt.Cloud.Monad.{M, pure, raise, lift, ◌>>=◌}
use kubergrunt.Eks.VerifyCluster.{verify_cluster}
use kubergrunt.Eks.Deploy.{RollOut, roll_out_deployment}
use kubergrunt.Eks.Drain.{drain_asg}
use kubergrunt.Eks.Cleanup.{cleanup_security_group}
use kubergrunt.Eks.Sync.Components.{sync_cluster_components}
use kubergrunt.Eks.Coredns.{CorednsAnnotation, schedule_coredns}
use kubergrunt.Cmd.Cli.{Cli}
use kubergrunt.Cmd.Common.{parse_kubectl_options}

abbrev pub eks_cluster_arn_flag_name : String
eks_cluster_arn_flag_name = "eks-cluster-arn"

abbrev pub cluster_region_flag_name : String
cluster_region_flag_name = "region"

abbrev pub cluster_asg_name_flag_name : String
cluster_asg_name_flag_name = "asg-name"

abbrev pub wait_flag_name : String
wait_flag_name = "wait"

abbrev pub wait_max_retries_flag_name : String
wait_max_retries_flag_name = "max-retries"

abbrev pub wait_sleep_between_retries_flag_name : String
wait_sleep_between_retries_flag_name = "sleep-between-retries"

abbrev pub drain_timeout_flag_name : String
drain_timeout_flag_name = "drain-timeout"

abbrev pub delete_empty_dir_data_flag_name : String
delete_empty_dir_data_flag_name = "delete-emptydir-data"

abbrev pub ignore_recovery_file_flag_name : String
ignore_recovery_file_flag_name = "ignore-recovery-file"

abbrev pub security_group_id_flag_name : String
security_group_id_flag_name = "security-group-id"

abbrev pub vpc_id_flag_name : String
vpc_id_flag_name = "vpc-id"

abbrev pub wait_timeout_flag_name : String
wait_timeout_flag_name = "wait-timeout"

abbrev pub sync_skip_kube_proxy_flag_name : String
sync_skip_kube_proxy_flag_name = "skip-kube-proxy"

abbrev pub sync_skip_core_dns_flag_name : String
sync_skip_core_dns_flag_name = "skip-coredns"

abbrev pub sync_skip_vpc_cni_flag_name : String
sync_skip_vpc_cni_flag_name = "skip-aws-vpc-cni"

abbrev pub cluster_name_flag_name : String
cluster_name_flag_name = "eks-cluster-name"

abbrev pub fargate_profile_arn_flag_name : String
fargate_profile_arn_flag_name = "fargate-profile-arn"

-- `asgNames[0]`, where there is exactly one.
unfoldable pub only_group : List String → M String
only_group (asg_name ∷ []) = pure asg_name
only_group _ = raise (exactly_one_asg cluster_asg_name_flag_name)

-- The groups, where there is one at least.
unfoldable pub some_groups : List String → M (List String)
some_groups [] = raise (required_args "You must provide at least one ASG Name with --asg-name.")
some_groups (asg_name ∷ asg_names) = pure (asg_name ∷ asg_names)

module _ (env : Env) (cli : Cli) where
  unfoldable pub verify_cluster_command : M (Unit {0})
  verify_cluster_command = do
    eks_cluster_arn ← lift (cli.string_flag_required eks_cluster_arn_flag_name)
    verify_cluster env eks_cluster_arn (cli.bool_flag wait_flag_name)
        (cli.int_flag wait_max_retries_flag_name)
        (cli.duration_flag wait_sleep_between_retries_flag_name)

  -- What rollOutDeployment reads before it starts: the arguments of the roll out.
  unfoldable pub parse_roll_out : M RollOut
  parse_roll_out = do
    kubectl_options ← parse_kubectl_options env cli
    region ← lift (cli.string_flag_required cluster_region_flag_name)
    asg_name ← only_group (cli.string_slice cluster_asg_name_flag_name)
    pure (record {
      region = region;
      eks_asg_name = asg_name;
      kubectl_options = kubectl_options;
      drain_timeout = cli.duration_flag drain_timeout_flag_name;
      delete_empty_dir_data = cli.bool_flag delete_empty_dir_data_flag_name;
      max_retries = cli.int_flag wait_max_retries_flag_name;
      sleep_between_retries = cli.duration_flag wait_sleep_between_retries_flag_name;
      ignore_recovery_file = cli.bool_flag ignore_recovery_file_flag_name;
    })

  unfoldable pub drain_command : M (Unit {0})
  drain_command = do
    kubectl_options ← parse_kubectl_options env cli
    region ← lift (cli.string_flag_required cluster_region_flag_name)
    asg_names ← some_groups (cli.string_slice cluster_asg_name_flag_name)
    drain_asg env region asg_names kubectl_options (cli.duration_flag drain_timeout_flag_name)
        (cli.bool_flag delete_empty_dir_data_flag_name)

module _ (env : Env) (lib : Retry) (cli : Cli) where
  unfoldable pub deploy_command : M (Unit {0})
  deploy_command = do args ← parse_roll_out env cli; roll_out_deployment env lib args

  unfoldable pub cleanup_command : M (Unit {0})
  cleanup_command = do
    eks_cluster_arn ← lift (cli.string_flag_required eks_cluster_arn_flag_name)
    security_group_id ← lift (cli.string_flag_required security_group_id_flag_name)
    vpc_id ← lift (cli.string_flag_required vpc_id_flag_name)
    cleanup_security_group env lib eks_cluster_arn security_group_id vpc_id

module _ (env : Env) (cli : Cli) where
  unfoldable pub sync_command : M (Unit {0})
  sync_command = do
    eks_cluster_arn ← lift (cli.string_flag_required eks_cluster_arn_flag_name)
    sync_cluster_components env eks_cluster_arn (cli.bool_flag wait_flag_name)
        (cli.string_flag wait_timeout_flag_name)
        (record {
          kube_proxy = cli.bool_flag sync_skip_kube_proxy_flag_name;
          core_dns = cli.bool_flag sync_skip_core_dns_flag_name;
          vpc_cni = cli.bool_flag sync_skip_vpc_cni_flag_name;
        })

  -- scheduleCorednsEc2 and scheduleCorednsFargate
  unfoldable pub schedule_coredns_command : CorednsAnnotation → M (Unit {0})
  schedule_coredns_command annotation = do
    kubectl_options ← parse_kubectl_options env cli
    eks_cluster_name ← lift (cli.string_flag_required cluster_name_flag_name)
    fargate_profile_arn ← lift (cli.string_flag_required fargate_profile_arn_flag_name)
    schedule_coredns env kubectl_options eks_cluster_name fargate_profile_arn annotation

-- ===== src/Tests/Coredns.antt =====
-- The theorem on the scheduling of CoreDNS, applied in the small cluster (eks/coredns.go).
use kubergrunt.Prelude.{[], refl}
use kubergrunt.Kubectl.Options.{
  eks_options, auth_scheme, get_kube_credentials_from_eks_cluster, save_config_to_file,
  temp_config_from_direct_auth_info, temp_config_from_eks_cluster_info, temp_config_for_scheme,
  temp_config_when_closed, temp_config_when_created, temp_config_from_auth_info, client_for_scheme,
  get_kubernetes_client_from_options,
}
use kubergrunt.Eks.Coredns.{fargate, schedule_coredns, annotate, fargate_args}
use kubergrunt.Eks.Coredns.Scheduled.{Scheduled, schedule_coredns-Scheduled}
use kubergrunt.Kubectl.Config.{create_initial_config, add_cluster_to_config, add_context_to_config}
use kubergrunt.Kubectl.Command.{
  remove_temp_file, run_with_temp_config, run_for_scheme, run_kubectl_with_output, run_kubectl,
}
use kubergrunt.Cloud.Monad.{pure, raise, crash, hang, lift, or_panic, ◌>>=◌, attempt, call}
use kubergrunt.EksAwsHelper.{
  cluster_name_of_resource, get_cluster_name_from_arn, get_region_from_arn, new_eks_client,
  get_cluster_by_arn, get_kubernetes_token_for_cluster, get_cluster_arn_by_name_and_region,
}
use kubergrunt.Strings.Split.{onto_head, split, join}
use kubergrunt.Strings.Bytes.{has_prefix, contains, replace_from}
use kubergrunt.Strings.{lookup, insert}
use kubergrunt.Tests.World.{world}

schedule_coredns-Scheduled_example :
    Scheduled world fargate (schedule_coredns world (eks_options "") "workers" "arn" fargate []).1
unfolding schedule_coredns annotate fargate_args auth_scheme eks_options
    get_kube_credentials_from_eks_cluster save_config_to_file temp_config_from_direct_auth_info
    temp_config_from_eks_cluster_info temp_config_for_scheme temp_config_when_closed
    temp_config_when_created temp_config_from_auth_info client_for_scheme
    get_kubernetes_client_from_options create_initial_config add_cluster_to_config
    add_context_to_config remove_temp_file run_with_temp_config run_for_scheme
    run_kubectl_with_output run_kubectl pure raise crash hang lift or_panic ◌>>=◌ attempt call
    cluster_name_of_resource get_cluster_name_from_arn get_region_from_arn new_eks_client
    get_cluster_by_arn get_kubernetes_token_for_cluster get_cluster_arn_by_name_and_region onto_head
    split join has_prefix contains replace_from lookup insert
schedule_coredns-Scheduled_example =
    schedule_coredns-Scheduled world (eks_options "") "workers" "arn" fargate [] refl

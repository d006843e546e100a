-- ===== src/Tests/Verify.antt =====
-- The theorem on the verification of a cluster, applied in the small cluster (eks/cluster.go).
use kubergrunt.Prelude.{true, [], refl}
use kubergrunt.Cloud.Monad.{pure, attempt, call, lift, ◌>>=◌}
use kubergrunt.EksAwsHelper.{
  get_cluster_by_arn, get_region_from_arn, new_eks_client, get_cluster_name_from_arn,
}
use kubergrunt.Eks.VerifyCluster.{
  verify_cluster, ensure_active, look_up_error, cluster_is_active, check_kubernetes_api_server,
  check_cluster, head_endpoint, up_of_answer, status_is_up, ensure_available,
}
use kubergrunt.Eks.VerifyCluster.Up.{Verified, verify_cluster-SeenUp}
use kubergrunt.Tests.World.{world}

verify_cluster-SeenUp_example :
    Verified world "arn" (verify_cluster world "arn" true 2 15000000000 []).1
unfolding verify_cluster ◌>>=◌ attempt get_cluster_by_arn get_region_from_arn lift pure
    new_eks_client call get_cluster_name_from_arn ensure_active look_up_error cluster_is_active
    check_kubernetes_api_server check_cluster head_endpoint up_of_answer status_is_up
    ensure_available
verify_cluster-SeenUp_example = verify_cluster-SeenUp world "arn" true 2 15000000000 [] refl

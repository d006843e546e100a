-- ===== src/EksAwsHelper.antt =====
-- eksawshelper/arn.go, eksawshelper/cluster.go, eksawshelper/client.go: the region and the name in
-- an EKS cluster's ARN, and the look-ups that start from it.
pub mod Found
use kubergrunt.Prelude.{String, Option}
use kubergrunt.Strings.Split.{split, join}
use kubergrunt.Strings.Bytes.{bytes}
use kubergrunt.Cloud.Types.{Text, Cluster}
use kubergrunt.Cloud.Request.{Call, Env}
use kubergrunt.Cloud.Monad.{M, pure, lift, or_panic, ◌>>=◌, ◌>>◌, call}
use mathlib.Core.List.{tail}

-- The resource section without its first path component.
unfoldable pub cluster_name_of_resource : Text → Text
cluster_name_of_resource resource = join b'/' (tail (split b'/' resource))

module _ (env : Env) where
  unfoldable pub get_cluster_name_from_arn : String → M Text
  get_cluster_name_from_arn eks_cluster_arn_string = do
    eks_cluster_arn ← lift (env.parse_arn eks_cluster_arn_string)
    pure (cluster_name_of_resource eks_cluster_arn.resource)

  unfoldable pub get_region_from_arn : String → M String
  get_region_from_arn eks_cluster_arn_string = do
    eks_cluster_arn ← lift (env.parse_arn eks_cluster_arn_string)
    pure eks_cluster_arn.region

  -- NewEksClient
  unfoldable pub new_eks_client : String → M (Unit {0})
  new_eks_client region = call env (Call.new_session region)

  unfoldable pub get_cluster_by_arn : String → M (Option Cluster)
  get_cluster_by_arn eks_cluster_arn = do
    region ← get_region_from_arn eks_cluster_arn
    new_eks_client region
    eks_cluster_name ← get_cluster_name_from_arn eks_cluster_arn
    call env (Call.describe_cluster eks_cluster_name)

  unfoldable pub get_kubernetes_token_for_cluster : Text → M String
  get_kubernetes_token_for_cluster cluster_id = do
    call env Call.new_token_generator
    call env (Call.get_token cluster_id)

  unfoldable pub get_cluster_arn_by_name_and_region : String → String → M String
  get_cluster_arn_by_name_and_region eks_cluster_name region = do
    call env (Call.new_session region)
    found ← call env (Call.describe_cluster (bytes eks_cluster_name))
    cluster ← or_panic found
    or_panic cluster.arn

-- ===== src/Eks/Coredns.antt =====
-- eks/coredns.go: where CoreDNS is scheduled.
pub mod Scheduled
use kubergrunt.Prelude.{String, List, [], ◌∷◌, if◌then◌else◌}
use kubergrunt.Strings.Bytes.{bytes, contains}
use kubergrunt.Cloud.Types.{KubectlOptions}
use kubergrunt.Cloud.Request.{Env}
use kubergrunt.Cloud.Monad.{M, ◌>>=◌}
use kubergrunt.EksAwsHelper.{get_region_from_arn, get_cluster_arn_by_name_and_region}
use kubergrunt.Kubectl.Command.{run_kubectl, run_kubectl_with_output}

pub data CorednsAnnotation : Type 0 where
  fargate ec2 : CorednsAnnotation

abbrev pub get_metadata_args : List String
get_metadata_args =
    "get" ∷ "deployment" ∷ "coredns" ∷ "-n" ∷ "kube-system" ∷ "-o"
    ∷ "jsonpath='{.spec.template.metadata}'" ∷ []

abbrev pub patch_args : String → List String
patch_args patch =
    "patch" ∷ "deployment" ∷ "coredns" ∷ "-n" ∷ "kube-system" ∷ "--type" ∷ "json" ∷ "--patch"
    ∷ patch ∷ []

abbrev pub remove_compute_type : String
remove_compute_type =
    "[{\"op\": \"remove\",\"path\": \"/spec/template/metadata/annotations/eks.amazonaws.com~1compute-type\"}]"

abbrev pub add_compute_type : String
add_compute_type =
    "[{\"op\": \"add\",\"path\": \"/spec/template/metadata/annotations\",\"value\": {\"eks.amazonaws.com/compute-type\": \"ec2\"}}]"

abbrev pub restart_args : List String
restart_args = "rollout" ∷ "restart" ∷ "deployment" ∷ "coredns" ∷ "-n" ∷ "kube-system" ∷ []

-- What kubectl is run with for fargate, by the annotations that it has printed.
unfoldable pub fargate_args : String → List String
fargate_args out =
    if contains (bytes out) (bytes "compute-type")
    then patch_args remove_compute_type
    else restart_args

module _ (env : Env) where
  unfoldable pub annotate : KubectlOptions → CorednsAnnotation → M (Unit {0})
  annotate options fargate = do
    out ← run_kubectl_with_output env options get_metadata_args
    run_kubectl env options (fargate_args out)
  annotate options ec2 = run_kubectl env options (patch_args add_compute_type)

  unfoldable pub schedule_coredns :
      KubectlOptions → String → String → CorednsAnnotation → M (Unit {0})
  schedule_coredns options cluster_name fargate_profile_arn annotation = do
    region ← get_region_from_arn env fargate_profile_arn
    eks_cluster_arn ← get_cluster_arn_by_name_and_region env cluster_name region
    annotate (record options { eks_cluster_arn = eks_cluster_arn }) annotation

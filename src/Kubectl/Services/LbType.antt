-- ===== src/Kubectl/Services/LbType.antt =====
-- kubectl/service.go, GetLoadBalancerTypeFromService.
use kubergrunt.Prelude.{String, str_eq, Option, none, some, ◌||◌, if◌then◌else◌}
use kubergrunt.Strings.{lookup}
use kubergrunt.Cloud.Types.{Service, ElbType, nlb, clb, ElbTargetType, instance_target, ip_target}
use kubergrunt.Cloud.Failure.{unknown_aws_load_balancer_type}
use kubergrunt.Cloud.Request.{Answer, reply, failure}

abbrev pub lb_type_annotation_key : String
lb_type_annotation_key = "service.beta.kubernetes.io/aws-load-balancer-type"

abbrev pub lb_target_annotation_key : String
lb_target_annotation_key = "service.beta.kubernetes.io/aws-load-balancer-nlb-target-type"

-- The target of a load balancer whose type annotation is "external".
unfoldable pub external_target : Option String → Answer (ElbType × ElbTargetType)
external_target none = reply (nlb, instance_target)
external_target (some target) =
    if str_eq target "instance"
    then reply (nlb, instance_target)
    else if str_eq target "ip" || str_eq target "nlb-ip"
    then reply (nlb, ip_target)
    else failure (unknown_aws_load_balancer_type lb_target_annotation_key target)

unfoldable pub type_of_annotations :
    Option String → Option String → Answer (ElbType × ElbTargetType)
unfolding external_target
type_of_annotations none target = reply (clb, instance_target)
type_of_annotations (some type_) target =
    if str_eq type_ "nlb"
    then reply (nlb, instance_target)
    else if str_eq type_ "external"
    then external_target target
    else failure (unknown_aws_load_balancer_type lb_type_annotation_key type_)

unfoldable pub get_load_balancer_type_from_service : Service → Answer (ElbType × ElbTargetType)
unfolding type_of_annotations
get_load_balancer_type_from_service service =
    type_of_annotations (lookup lb_type_annotation_key service.annotations)
      (lookup lb_target_annotation_key service.annotations)

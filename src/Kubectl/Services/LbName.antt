-- ===== src/Kubectl/Services/LbName.antt =====
-- kubectl/service.go: the name of a load balancer in the host name that AWS gives it.
use kubergrunt.Prelude.{String, List, [], ◌∷◌, if◌then◌else◌}
use kubergrunt.Strings.Split.{split, join}
use kubergrunt.Strings.Dict.{text_eq}
use kubergrunt.Cloud.Types.{Text, Service}
use kubergrunt.Cloud.Failure.{load_balancer_not_ready, load_balancer_name_format}
use kubergrunt.Cloud.Request.{Answer, reply, failure}

-- "internal"
abbrev pub internal : Text
internal = b'i' ∷ b'n' ∷ b't' ∷ b'e' ∷ b'r' ∷ b'n' ∷ b'a' ∷ b'l' ∷ []

-- `parts[:len(parts)-1]`
unfoldable pub but_last : List Text → List Text
but_last [] = []
but_last (p ∷ []) = []
but_last (p ∷ q ∷ ps) = p ∷ but_last (q ∷ ps)

-- The name, by the parts of the subdomain between its dashes.
unfoldable pub name_of_parts : Text → List Text → Answer Text
name_of_parts hostname [] = failure (load_balancer_name_format hostname)
name_of_parts hostname (p ∷ []) = failure (load_balancer_name_format hostname)
name_of_parts hostname (p ∷ q ∷ ps) =
    if text_eq p internal
    then reply (join b'-' (but_last (q ∷ ps)))
    else reply (join b'-' (but_last (p ∷ q ∷ ps)))

-- `strings.Split(hostname, ".")[0]`
unfoldable pub first_part : List Text → Text
first_part [] = []
first_part (p ∷ ps) = p

unfoldable pub get_aws_load_balancer_name_from_hostname : Text → Answer Text
unfolding first_part name_of_parts but_last text_eq
get_aws_load_balancer_name_from_hostname hostname =
    name_of_parts hostname (split b'-' (first_part (split b'.' hostname)))

unfoldable pub name_of_ingress : String → List Text → Answer Text
name_of_ingress service_name [] = failure (load_balancer_not_ready service_name)
name_of_ingress service_name (hostname ∷ _) = get_aws_load_balancer_name_from_hostname hostname

unfoldable pub get_load_balancer_name_from_service : Service → Answer Text
unfolding name_of_ingress
get_load_balancer_name_from_service service = name_of_ingress service.name service.ingress_hostnames

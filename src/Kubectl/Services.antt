-- ===== src/Kubectl/Services.antt =====
-- kubectl/service.go: the load balancers of the cluster's services.
pub mod LbType
pub mod LbName
pub mod TypeRule
pub mod NameRule
use kubergrunt.Prelude.{
  ℕ, zero, suc, String, str_eq, Bool, true, false, Option, none, some, List, [], ◌∷◌, ◌++◌,
  if◌then◌else◌,
}
use kubergrunt.Cloud.Types.{Service, ServicePage, AwsLoadBalancer, KubectlOptions}
use kubergrunt.Cloud.Request.{Call, Env}
use kubergrunt.Cloud.Monad.{M, pure, hang, lift, ◌>>=◌, ◌>>◌, call}
use kubergrunt.Kubectl.Options.{get_kubernetes_client_from_options}
use LbType.{get_load_balancer_type_from_service}
use LbName.{get_load_balancer_name_from_service}

unfoldable pub filter_load_balancer_services : List Service → List Service
filter_load_balancer_services [] = []
filter_load_balancer_services (service ∷ services) =
    if str_eq service.service_type "LoadBalancer"
    then service ∷ filter_load_balancer_services services
    else filter_load_balancer_services services

-- The body of the loop of GetAWSLoadBalancers.
unfoldable pub load_balancers_of : List Service → M (List AwsLoadBalancer)
load_balancers_of [] = pure []
load_balancers_of (service ∷ services) = do
  name ← lift (get_load_balancer_name_from_service service)
  (lb_type, lb_target_type) ← lift (get_load_balancer_type_from_service service)
  rest ← load_balancers_of services
  pure (record { name = name; type_ = lb_type; target_type = lb_target_type } ∷ rest)

module _ (env : Env) where
  -- The loop of GetAllServices, for as many pages as the fuel allows.
  unfoldable pub service_pages : ℕ → String → List Service → M (List Service)
  service_pages zero continue_token services = hang
  service_pages (suc fuel) continue_token services = do
    resp ← call env (Call.list_services continue_token)
    if str_eq resp.continue_token ""
        then pure (services ++ resp.items)
        else service_pages fuel resp.continue_token (services ++ resp.items)

  unfoldable pub get_all_services : M (List Service)
  get_all_services = service_pages env.max_pages "" []

  unfoldable pub get_aws_load_balancers : KubectlOptions → M (List AwsLoadBalancer)
  get_aws_load_balancers options = do
    get_kubernetes_client_from_options env options
    services ← get_all_services
    load_balancers_of (filter_load_balancer_services services)

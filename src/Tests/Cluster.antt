-- ===== src/Tests/Cluster.antt =====
-- The theorems on the parts of a roll out, applied in the small cluster (eks/asg.go, eks/instances.go,
-- eks/elb.go, kubectl/node.go, kubectl/service.go).
use mathlib.Core.List.{reverse_perm}
use kubergrunt.Strings.Dict.{text_eq}
use kubergrunt.Strings.Split.{split, join}
use kubergrunt.Kubectl.Options.{auth_scheme, client_for_scheme, get_kubernetes_client_from_options}
use kubergrunt.Prelude.{false, some, [], ◌∷◌, ◌≡◌, ◌↔◌, refl, All}
use kubergrunt.Strings.{lookup}
use kubergrunt.Cloud.Types.{
  Text, Service, AwsLoadBalancer, nlb, clb, ip_target, instance_target, TargetGroup,
}
use kubergrunt.Cloud.Failure.{external}
use kubergrunt.Cloud.Request.{reply}
use kubergrunt.Cloud.Monad.{lift, ok, hangs, call, pure, ◌>>=◌}
use kubergrunt.Kubectl.Nodes.{
  drain_nodes, cordon_nodes, drain_args, wait_for_nodes_ready, all_nodes_ready, conditions_ready,
  filter_nodes_by_id, is_node_ready, nodes_ready_loop, nodes_registered_and_ready,
}
use kubergrunt.Kubectl.Nodes.Ready.{SeenReady, wait_for_nodes_ready-SeenReady}
use kubergrunt.Kubectl.Nodes.Order.{
  SchedulerLaws, OneEach, kubectl_command, drain_nodes-requests, cordon_nodes-requests,
}
use kubergrunt.Kubectl.Services.LbType.{
  lb_type_annotation_key, lb_target_annotation_key, get_load_balancer_type_from_service,
}
use kubergrunt.Kubectl.Services.LbName.{
  get_load_balancer_name_from_service, get_aws_load_balancer_name_from_hostname, first_part,
}
use kubergrunt.Kubectl.Services.{
  get_aws_load_balancers, get_all_services, service_pages, load_balancers_of,
  filter_load_balancer_services,
}
use kubergrunt.Kubectl.Services.TypeRule.{
  TypeRule, Handled, load_balancer_type-TypeRule, get_aws_load_balancers-Handled,
}
use kubergrunt.Kubectl.Services.NameRule.{
  hostname_of, internal_hostname_of, load_balancer_name-plain, load_balancer_name-internal,
}
use kubergrunt.Eks.AutoScaling.{wait_for_capacity, first_group, get_asg_by_name}
use kubergrunt.Eks.AutoScaling.Capacity.{AtCapacity, wait_for_capacity-AtCapacity}
use kubergrunt.Eks.Instances.{terminate_instances}
use kubergrunt.Eks.Instances.Laws.{AllAsked, terminate_instances-never_fails}
use kubergrunt.Eks.LoadBalancers.{wait_for_target_groups}
use kubergrunt.Eks.LoadBalancers.Hang.{wait_for_target_groups-hangs}
use kubergrunt.Tests.World.{world, broken, once, once-RetryLaws, web_service}
use kubergrunt.Tests.Deploy.{options}

terminate_instances-never_fails_example :
    let (r, h) = terminate_instances broken ("i-1" ∷ "i-2" ∷ []) [] in
    (r ≡ ok tt) × AllAsked (("i-1" ∷ "i-2" ∷ []) ∷ []) h
terminate_instances-never_fails_example =
    terminate_instances-never_fails broken ("i-1" ∷ "i-2" ∷ []) []

wait_for_capacity-AtCapacity_example :
    AtCapacity world "workers" (wait_for_capacity world "workers" 3 0 []).1
unfolding wait_for_capacity ◌>>=◌ get_asg_by_name call first_group pure
wait_for_capacity-AtCapacity_example = wait_for_capacity-AtCapacity world "workers" 3 0 [] refl

abbrev target_group : TargetGroup
target_group = record { target_group_name = "group"; target_group_arn = "arn" }

wait_for_target_groups-hangs_example :
    (wait_for_target_groups world once (target_group ∷ []) ("i-2" ∷ []) [] []).0 ≡ hangs
wait_for_target_groups-hangs_example =
    wait_for_target_groups-hangs world once once-RetryLaws target_group [] ("i-2" ∷ []) [] []
      (external "AccessDenied") refl

wait_for_nodes_ready-SeenReady_example :
    SeenReady world ("node" ∷ []) (wait_for_nodes_ready world options ("node" ∷ []) 2 0 []).1
unfolding wait_for_nodes_ready ◌>>=◌ get_kubernetes_client_from_options client_for_scheme
    auth_scheme call nodes_ready_loop nodes_registered_and_ready filter_nodes_by_id all_nodes_ready
    is_node_ready conditions_ready pure
wait_for_nodes_ready-SeenReady_example =
    wait_for_nodes_ready-SeenReady world options ("node" ∷ []) 2 0 [] refl

broken-SchedulerLaws : SchedulerLaws broken
broken-SchedulerLaws = record { scheduled-Perm = λ h goroutines. reverse_perm goroutines }

drain_nodes-requests_example :
    OneEach
      (λ node_id. kubectl_command options (drain_args broken node_id 1 false))
      ("a" ∷ "b" ∷ [])
      []
      (drain_nodes broken options ("a" ∷ "b" ∷ []) 1 false []).1
unfolding auth_scheme
drain_nodes-requests_example =
    drain_nodes-requests broken broken-SchedulerLaws options ("a" ∷ "b" ∷ []) 1 false [] refl

cordon_nodes-requests_example :
    OneEach
      (λ node_id. kubectl_command options ("cordon" ∷ node_id ∷ []))
      ("a" ∷ "b" ∷ [])
      []
      (cordon_nodes broken options ("a" ∷ "b" ∷ []) []).1
unfolding auth_scheme
cordon_nodes-requests_example =
    cordon_nodes-requests broken broken-SchedulerLaws options ("a" ∷ "b" ∷ []) [] refl

-- A service that the AWS load balancer controller handles.
abbrev ip_service : Service
ip_service = record web_service {
  annotations = (lb_type_annotation_key, "external") ∷ (lb_target_annotation_key, "nlb-ip") ∷ [];
}

load_balancer_type-TypeRule_example :
    (get_load_balancer_type_from_service ip_service ≡ reply (nlb, ip_target))
    ↔ TypeRule (some "external") (some "nlb-ip") (nlb, ip_target)
unfolding lookup
load_balancer_type-TypeRule_example = load_balancer_type-TypeRule ip_service (nlb, ip_target)

abbrev web : AwsLoadBalancer
web = record { name = b'w' ∷ []; type_ = clb; target_type = instance_target }

get_aws_load_balancers-Handled_example : All Handled (web ∷ [])
unfolding get_aws_load_balancers ◌>>=◌ get_kubernetes_client_from_options client_for_scheme
    auth_scheme call get_all_services service_pages pure load_balancers_of
    filter_load_balancer_services lift get_load_balancer_name_from_service
    get_aws_load_balancer_name_from_hostname split get_load_balancer_type_from_service lookup join
get_aws_load_balancers-Handled_example =
    get_aws_load_balancers-Handled world options [] (web ∷ []) refl

-- "my-lb", "7" and "aws.com"
abbrev name : Text
name = b'm' ∷ b'y' ∷ b'-' ∷ b'l' ∷ b'b' ∷ []

abbrev domain : Text
domain = b'a' ∷ b'w' ∷ b's' ∷ b'.' ∷ b'c' ∷ b'o' ∷ b'm' ∷ []

load_balancer_name-plain_example :
    get_aws_load_balancer_name_from_hostname (hostname_of name (b'7' ∷ []) domain) ≡ reply name
unfolding text_eq first_part split
load_balancer_name-plain_example =
    load_balancer_name-plain name (b'7' ∷ []) domain (refl, (refl, (refl, (refl, (refl, tt)))))
      (refl, tt) (refl, tt) refl

load_balancer_name-internal_example :
    get_aws_load_balancer_name_from_hostname (internal_hostname_of name (b'7' ∷ []) domain)
    ≡ reply name
load_balancer_name-internal_example =
    load_balancer_name-internal name (b'7' ∷ []) domain (refl, (refl, (refl, (refl, (refl, tt)))))
      (refl, tt) (refl, tt)

-- ===== src/Kubectl/Services/TypeRule.antt =====
-- The documented rule for the type of a load balancer, and the code that follows it
-- (kubectl/service.go, GetLoadBalancerTypeFromService and GetAWSLoadBalancers).
use kubergrunt.Prelude.{
  String, str_eq, eq_iff, false, Bool-cases, Option, none, some, List, [], ◌∷◌, ◌≡◌, ◌≢◌, refl, ◌↔◌,
  inl, inr, All, subst,
}
use kubergrunt.Strings.{lookup}
use kubergrunt.Cloud.Failure.{Error}
use kubergrunt.Cloud.Types.{
  Text, alb, unknown_elb, unknown_elb_target, Service, AwsLoadBalancer, KubectlOptions, ElbType,
  nlb, clb, ElbTargetType, instance_target, ip_target,
}
use kubergrunt.Cloud.Request.{Answer, reply, History, Env}
use kubergrunt.Cloud.Monad.{ok, pure}
use kubergrunt.Cloud.Yields.{
  Yields, Yields-pure, Yields-lift, Yields-bind, Yields-bind_at, Yields-ok,
}
use kubergrunt.Kubectl.Services.{
  load_balancers_of, filter_load_balancer_services, get_aws_load_balancers,
}
use kubergrunt.Kubectl.Services.LbType.{
  lb_type_annotation_key, lb_target_annotation_key, type_of_annotations, external_target,
  get_load_balancer_type_from_service,
}

-- The rule, on the value of the type annotation and of the target annotation.
pub data TypeRule : Option String → Option String → ElbType × ElbTargetType → Type 0 where
  no_type : {target : Option String} → TypeRule none target (clb, instance_target)
  in_tree_nlb : {target : Option String} → TypeRule (some "nlb") target (nlb, instance_target)
  external_no_target : TypeRule (some "external") none (nlb, instance_target)
  external_instance : TypeRule (some "external") (some "instance") (nlb, instance_target)
  external_ip : TypeRule (some "external") (some "ip") (nlb, ip_target)
  external_nlb_ip : TypeRule (some "external") (some "nlb-ip") (nlb, ip_target)

follows :
    {type_ target : Option String} {r : ElbType × ElbTargetType}
    → TypeRule type_ target r
    → type_of_annotations type_ target ≡ reply r
unfolding type_of_annotations external_target
follows no_type = refl
follows in_tree_nlb = refl
follows external_no_target = refl
follows external_instance = refl
follows external_ip = refl
follows external_nlb_ip = refl

reply_inj : {A : Type 0} {a b : A} → Answer.reply a ≡ reply b → a ≡ b
reply_inj e = cc

fail_is_no_reply : {A : Type 0} {e : Error} {a : A} → Answer.failure e ≡ reply a → ⊥
fail_is_no_reply e = cc

rule_of_ip :
    (target : String) (r : ElbType × ElbTargetType)
    → str_eq target "instance" ≡ false
    → external_target (some target) ≡ reply r
    → TypeRule (some "external") (some target) r
unfolding external_target
rule_of_ip target r not_instance e = elim (Bool-cases (str_eq target "ip")) [
  | inl i ↦ rw ((eq_iff target "ip").0 i) (
      subst (TypeRule (some "external") (some "ip")) (reply_inj (rw (not_instance, i) at e))
        external_ip)
  | inr not_ip ↦ elim (Bool-cases (str_eq target "nlb-ip")) [
    | inl i ↦ rw ((eq_iff target "nlb-ip").0 i) (
        subst (TypeRule (some "external") (some "nlb-ip"))
          (reply_inj (rw (not_instance, not_ip, i) at e)) external_nlb_ip)
    | inr not_nlb ↦ absurd (fail_is_no_reply (rw (not_instance, not_ip, not_nlb) at e))
  ]
]

rule_of_target :
    (target : Option String) (r : ElbType × ElbTargetType)
    → external_target target ≡ reply r
    → TypeRule (some "external") target r
unfolding external_target
rule_of_target none r e = subst (TypeRule (some "external") none) (reply_inj e) external_no_target
rule_of_target (some target) r e = elim (Bool-cases (str_eq target "instance")) [
  | inl i ↦ rw ((eq_iff target "instance").0 i) (
      subst (TypeRule (some "external") (some "instance")) (reply_inj (rw i at e))
        external_instance)
  | inr not_instance ↦ rule_of_ip target r not_instance e
]

rule_of_type :
    (type_ target : Option String) (r : ElbType × ElbTargetType)
    → type_of_annotations type_ target ≡ reply r
    → TypeRule type_ target r
unfolding type_of_annotations
rule_of_type none target r e = subst (TypeRule none target) (reply_inj e) no_type
rule_of_type (some type_) target r e = elim (Bool-cases (str_eq type_ "nlb")) [
  | inl i ↦
      rw ((eq_iff type_ "nlb").0 i)
        (subst (TypeRule (some "nlb") target) (reply_inj (rw i at e)) in_tree_nlb)
  | inr not_nlb ↦ elim (Bool-cases (str_eq type_ "external")) [
    | inl i ↦ rw ((eq_iff type_ "external").0 i) (rule_of_target target r (rw (not_nlb, i) at e))
    | inr not_external ↦ absurd (fail_is_no_reply (rw (not_nlb, not_external) at e))
  ]
]

-- The type of a service's load balancer is the one that the rule gives to its two annotations, and
-- where the rule gives none the code fails.
pub load_balancer_type-TypeRule :
    (service : Service) (r : ElbType × ElbTargetType)
    → (get_load_balancer_type_from_service service ≡ reply r)
      ↔ TypeRule
          (lookup lb_type_annotation_key service.annotations)
          (lookup lb_target_annotation_key service.annotations)
          r
unfolding get_load_balancer_type_from_service
load_balancer_type-TypeRule service r = (
  rule_of_type (lookup lb_type_annotation_key service.annotations)
      (lookup lb_target_annotation_key service.annotations) r,
  follows,
)

-- A load balancer that the wait of eks/elb.go handles: none of its cases that it calls impossible.
abbrev pub Handled : AwsLoadBalancer → Type 0
Handled lb = (lb.type_ ≢ unknown_elb) × (lb.target_type ≢ unknown_elb_target) × (lb.type_ ≢ alb)

rule-Handled :
    {type_ target : Option String} {r : ElbType × ElbTargetType} (name : Text)
    → TypeRule type_ target r
    → Handled (record { name = name; type_ = r.0; target_type = r.1 })
rule-Handled name no_type = (λ e. cc, λ e. cc, λ e. cc)
rule-Handled name in_tree_nlb = (λ e. cc, λ e. cc, λ e. cc)
rule-Handled name external_no_target = (λ e. cc, λ e. cc, λ e. cc)
rule-Handled name external_instance = (λ e. cc, λ e. cc, λ e. cc)
rule-Handled name external_ip = (λ e. cc, λ e. cc, λ e. cc)
rule-Handled name external_nlb_ip = (λ e. cc, λ e. cc, λ e. cc)

load_balancers_of-Handled :
    (services : List Service) → Yields (load_balancers_of services) (λ lbs _. All Handled lbs)
unfolding load_balancers_of pure
load_balancers_of-Handled [] = Yields-pure [] (λ h. tt)
load_balancers_of-Handled (service ∷ services) = Yields-bind _ _ (λ name.
    Yields-bind_at _ _
      (Yields-lift {Q = λ t _. get_load_balancer_type_from_service service ≡ reply t}
        (get_load_balancer_type_from_service service) (λ t e h. e))
      (λ t h e.
        (Yields-bind_at _ _ (load_balancers_of-Handled services) (λ rest h' handled.
            (rule-Handled name ((load_balancer_type-TypeRule service t).0 e), handled))).at
          h))

module _ (env : Env) where
  -- The load balancers that a listing of the cluster's services returns are all of a type and a
  -- target type that the wait handles.
  pub get_aws_load_balancers-Handled :
      (options : KubectlOptions) (h : History) (lbs : List AwsLoadBalancer)
      → (get_aws_load_balancers env options h).0 ≡ ok lbs
      → All Handled lbs
  unfolding get_aws_load_balancers
  get_aws_load_balancers-Handled options h lbs =
      Yields-ok {Q = λ found _. All Handled found} (get_aws_load_balancers env options) h (
        Yields-bind _ _ (λ _.
          Yields-bind _ _
            (λ services. load_balancers_of-Handled (filter_load_balancer_services services))))

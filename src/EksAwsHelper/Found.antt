-- ===== src/EksAwsHelper/Found.antt =====
-- What the look-ups by an ARN have found (eksawshelper/arn.go, eksawshelper/cluster.go).
use kubergrunt.Prelude.{String, Option, ◌≡◌, refl, sym, ap, ◌∙◌, inl}
use kubergrunt.Cloud.Types.{Arn, Cluster}
use kubergrunt.Cloud.Request.{Call, reply, History, Env}
use kubergrunt.Cloud.Monad.{call}
use kubergrunt.Cloud.Yields.{
  Yields, Yields-pure, Yields-lift, Yields-bind, Yields-bind_at, Yields-call,
}
use kubergrunt.Cloud.Answered.{Answered}
use kubergrunt.EksAwsHelper.{
  cluster_name_of_resource, get_cluster_name_from_arn, get_region_from_arn, new_eks_client,
  get_cluster_by_arn,
}

reply_inj : {A : Type 0} {a b : A} → reply a ≡ reply b → a ≡ b
reply_inj e = cc

module _ (env : Env) where
  pub name-Yields :
      (cluster_arn : String)
      → Yields (get_cluster_name_from_arn env cluster_arn) (λ name _.
        (arn : Arn) × (env.parse_arn cluster_arn ≡ reply arn)
        × (cluster_name_of_resource arn.resource ≡ name))
  unfolding get_cluster_name_from_arn
  name-Yields cluster_arn =
      Yields-bind_at _ _
        (Yields-lift {Q = λ arn _. env.parse_arn cluster_arn ≡ reply arn}
          (env.parse_arn cluster_arn) (λ arn e h. e))
        (λ arn h e. (Yields-pure _ (λ h. (arn, e, refl))).at h)

  -- The region of an ARN that is known.
  pub region-Yields :
      (cluster_arn : String) (arn : Arn)
      → env.parse_arn cluster_arn ≡ reply arn
      → Yields (get_region_from_arn env cluster_arn) (λ region _. region ≡ arn.region)
  unfolding get_region_from_arn
  region-Yields cluster_arn arn parsed =
      Yields-bind_at _ _
        (Yields-lift {Q = λ other _. env.parse_arn cluster_arn ≡ reply other}
          (env.parse_arn cluster_arn) (λ other e h. e))
        (λ other h e.
          (Yields-pure _ (λ h. ap (λ (a : Arn). a.region) (reply_inj (sym e ∙ parsed)))).at h)

  -- AWS has described the cluster of the ARN so.
  abbrev pub Described : String → Arn → Option Cluster → History → Type 0
  Described cluster_arn arn cluster h =
      (env.parse_arn cluster_arn ≡ reply arn)
      × Answered env (Call.describe_cluster (cluster_name_of_resource arn.resource)) (reply cluster)
          h

  pub cluster-Yields :
      (cluster_arn : String)
      → Yields
          (get_cluster_by_arn env cluster_arn)
          (λ cluster h. (arn : Arn) × Described cluster_arn arn cluster h)
  unfolding get_cluster_by_arn new_eks_client
  cluster-Yields cluster_arn = Yields-bind _ _ (λ region.
      Yields-bind (call env (Call.new_session region)) _ (λ _.
        Yields-bind_at _ _ (name-Yields cluster_arn) (λ name h (arn, parsed, same). rw (← same) (
          (Yields-call env (Call.describe_cluster (cluster_name_of_resource arn.resource))
              {Q = λ cluster h. (arn : Arn) × Described cluster_arn arn cluster h}
              (λ h cluster e. (arn, (parsed, inl (refl, e))))).at
            h))))

-- ===== src/Eks/Cleanup/Deleted.antt =====
-- What a clean-up that succeeds has done (eks/cleanup.go, CleanupSecurityGroup).
use kubergrunt.Prelude.{
  String, Bool, true, false, List, [], ◌∷◌, ◌≡◌, refl, ap, ◌∙◌, ◌⊎◌, inl, inr, if◌then◌else◌, All,
}
use kubergrunt.Cloud.Types.{Arn, SecurityGroup}
use kubergrunt.Cloud.Failure.{Error, external}
use kubergrunt.Cloud.Request.{Call, Answer, reply, failure, Event, History, Env}
use kubergrunt.Cloud.Retry.{Retry, RetryLaws}
use kubergrunt.Cloud.Monad.{ok, pure, ◌>>=◌, ◌>>◌, call}
use kubergrunt.Cloud.Yields.{Yields, Yields-bind, Yields-bind_at, Yields-ok}
use kubergrunt.Cloud.Answered.{Answered, Answered-more}
use kubergrunt.Cloud.Lasting.{Lasting, Lasting-both}
use kubergrunt.Cloud.Triple.{
  Triple, Triple-pure, Triple-raise, Triple-if, Triple-bind, Triple-call, Triple-try, Triple-weaken,
  yields-Triple,
}
use kubergrunt.EksAwsHelper.{cluster_name_of_resource}
use kubergrunt.EksAwsHelper.Found.{name-Yields}
use kubergrunt.Eks.AutoScaling.{string_value}
use kubergrunt.Eks.Cleanup.{
  has_code, group_deleted, delete_security_group, delete_dependencies, clean_up_groups,
  clean_up_controller_groups, cleanup_security_group,
}
use kubergrunt.Eks.Cleanup.Gone.{Cleared, delete_dependencies-Triple, has_code_lem}

abbrev pub group_not_found : Error
group_not_found = external "InvalidGroup.NotFound"

module _ (env : Env) where
  -- A request that succeeded deleted the group, and before it the group's interfaces were cleared.
  abbrev pub Removed : String → History → Type 0
  Removed group [] = ⊥
  Removed group (e ∷ h) =
      ((e.request ≡ Call.delete_security_group group)
        × (env.respond h (Call.delete_security_group group) ≡ reply tt)
        × Cleared env group h)
      ⊎ Removed group h

  -- AWS answered that a group to delete does not exist.
  abbrev pub SomeMissing : History → Type 0
  SomeMissing h =
      (group : String) × Answered env (Call.delete_security_group group) (failure group_not_found) h

  Removed-Lasting : (group : String) → Lasting (Removed group)
  Removed-Lasting group e h k = inr k

  -- The two answers with which the code goes on.
  Deleted : String → (History → Type 0) → Bool → History → Type 0
  Deleted group P true h = P h × Removed group h
  Deleted group P false h = P h × SomeMissing h

  answer-Triple :
      (group : String) (P : History → Type 0) (a : Answer (Unit {0}))
      → Lasting P
      → Triple
          (λ h.
            P h
            × (before : History) × (e : Event) × (h ≡ e ∷ before)
            × (e.request ≡ Call.delete_security_group group)
            × (env.respond before (Call.delete_security_group group) ≡ a)
            × Cleared env group before)
          (group_deleted a)
          (Deleted group P)
  unfolding group_deleted Deleted
  answer-Triple group P (reply _) l =
      Triple-pure true
        (λ h (p, before, e, at, same, answer, clear). (p, rw at (inl (same, answer, clear))))
  answer-Triple group P (failure x) l =
      Triple-if (has_code "InvalidGroup.NotFound" x) _ _
        (λ missing. Triple-pure false (λ h (p, before, e, at, same, answer, clear).
          (p, (group, rw at (inl (same, answer ∙ ap failure (has_code_lem _ x missing)))))))
        (λ _. Triple-raise x)

  delete-Triple :
      (group : String) (P : History → Type 0)
      → Lasting P
      → Triple (λ h. P h × Cleared env group h) (delete_security_group env group) (Deleted group P)
  unfolding delete_security_group
  delete-Triple group P l =
      Triple-bind _ _ _
        (Triple-try env (Call.delete_security_group group)
          (λ h a k e. (l _ h k.0, h, _, refl, refl, e, k.1)))
        (λ a. answer-Triple group P a l)

  -- The groups of the load balancer controller have been removed, or one was missing.
  abbrev pub AllRemoved : List SecurityGroup → History → Type 0
  AllRemoved groups h = SomeMissing h ⊎ All (λ g. Removed (string_value g.group_id) h) groups

  with_first :
      (g : SecurityGroup) (groups : List SecurityGroup) (h : History)
      → Removed (string_value g.group_id) h
      → AllRemoved groups h
      → AllRemoved (g ∷ groups) h
  with_first g groups h removed (inl missing) = inl missing
  with_first g groups h removed (inr all) = inr (removed, all)

  -- A group was missing, or the given group and those of the load balancer controller are removed.
  abbrev pub CleanedUp : String → String → String → History → Type 0
  CleanedUp cluster_arn security_group_id vpc_id h =
      SomeMissing h
      ⊎ ((arn : Arn) × (groups : List SecurityGroup) × (env.parse_arn cluster_arn ≡ reply arn)
          × Removed security_group_id h
          × Answered env
              (Call.describe_security_groups vpc_id (cluster_name_of_resource arn.resource))
              (reply groups) h
          × All (λ g. Removed (string_value g.group_id) h) groups)

module _ (env : Env) (lib : Retry) (laws : RetryLaws lib) where
  -- After the deletion of one group.
  next-Triple :
      (g : SecurityGroup) (groups : List SecurityGroup) (P : History → Type 0) (b : Bool)
      → Triple
          (λ h. P h × Removed env (string_value g.group_id) h)
          (clean_up_groups env lib groups)
          (λ _ h. (P h × Removed env (string_value g.group_id) h) × AllRemoved env groups h)
      → Triple
          (Deleted env (string_value g.group_id) P b)
          (if b then clean_up_groups env lib groups else pure tt)
          (λ _ h. P h × AllRemoved env (g ∷ groups) h)
  unfolding Deleted
  next-Triple g groups P true rest =
      Triple-weaken _ (λ h k. k) (λ _ h k. (k.0.0, with_first env g groups h k.0.1 k.1)) rest
  next-Triple g groups P false rest = Triple-pure tt (λ h k. (k.0, inl k.1))

  groups-Triple :
      (groups : List SecurityGroup) (P : History → Type 0)
      → Lasting P
      → Triple P (clean_up_groups env lib groups) (λ _ h. P h × AllRemoved env groups h)
  unfolding clean_up_groups
  groups-Triple [] P l = Triple-pure tt (λ h p. (p, inr tt))
  groups-Triple (g ∷ groups) P l =
      let id = string_value g.group_id in
      Triple-bind _ _ _ (delete_dependencies-Triple env lib laws id P l) (λ _.
        Triple-bind _ _ _ (delete-Triple env id P l) (λ b. next-Triple g groups P b (
          groups-Triple groups (λ h. P h × Removed env id h)
            (Lasting-both P (Removed env id) l (Removed-Lasting env id)))))

  controller-Triple :
      (cluster_arn security_group_id vpc_id : String) (arn : Arn) (b : Bool)
      → env.parse_arn cluster_arn ≡ reply arn
      → Triple
          (Deleted env security_group_id (λ _. Unit {0}) b)
          (clean_up_controller_groups env lib vpc_id (cluster_name_of_resource arn.resource) b)
          (λ _ h. CleanedUp env cluster_arn security_group_id vpc_id h)
  unfolding Deleted clean_up_controller_groups
  controller-Triple cluster_arn sg vpc_id arn false parsed = Triple-pure tt (λ h k. inl k.1)
  controller-Triple cluster_arn sg vpc_id arn true parsed =
      Triple-bind (λ groups. Listed groups) _ _
        (Triple-call env (Call.describe_security_groups vpc_id _)
          (λ h groups k e. (inr k.1, inl (refl, e))))
        (λ groups.
          Triple-weaken _ (λ h k. k) (λ _ h k. summed groups h k.0 k.1)
            (groups-Triple groups (Listed groups) (listed groups)))
    where
      Listed : List SecurityGroup → History → Type 0
      Listed groups h =
          Removed env sg h
          × Answered env
              (Call.describe_security_groups vpc_id (cluster_name_of_resource arn.resource))
              (reply groups) h

      listed : (groups : List SecurityGroup) → Lasting (Listed groups)
      listed groups =
          Lasting-both (Removed env sg) _ (Removed-Lasting env sg) (Answered-more env _ _)

      summed :
          (groups : List SecurityGroup) (h : History)
          → Listed groups h
          → AllRemoved env groups h
          → CleanedUp env cluster_arn sg vpc_id h
      summed groups h k (inl missing) = inl missing
      summed groups h k (inr all) = inr (arn, groups, parsed, k.0, k.1, all)

  groups-Yields :
      (cluster_arn security_group_id vpc_id : String) (arn : Arn)
      → env.parse_arn cluster_arn ≡ reply arn
      → Yields
          (do
            delete_dependencies env lib security_group_id
            deleted ← delete_security_group env security_group_id
            clean_up_controller_groups env lib vpc_id
                (cluster_name_of_resource arn.resource)
                deleted)
          (λ _ h. CleanedUp env cluster_arn security_group_id vpc_id h)
  groups-Yields cluster_arn sg vpc_id arn parsed = yields-Triple _ (
      Triple-bind _ _ _ (delete_dependencies-Triple env lib laws sg (λ _. Unit {0}) (λ e h k. tt))
        (λ _.
          Triple-bind _ _ _ (delete-Triple env sg (λ _. Unit {0}) (λ e h k. tt))
            (λ b. controller-Triple cluster_arn sg vpc_id arn b parsed)))

  cleanup-Yields :
      (cluster_arn security_group_id vpc_id : String)
      → Yields
          (cleanup_security_group env lib cluster_arn security_group_id vpc_id)
          (λ _ h. CleanedUp env cluster_arn security_group_id vpc_id h)
  unfolding cleanup_security_group
  cleanup-Yields cluster_arn sg vpc_id = Yields-bind _ _ (λ region.
      Yields-bind_at _ _ (name-Yields env cluster_arn) (λ name h (arn, parsed, same). rw (← same) (
        (Yields-bind (call env (Call.new_session region)) _
            (λ _. groups-Yields cluster_arn sg vpc_id arn parsed)).at
          h)))

  -- When a clean-up succeeds, either AWS has answered of one of the groups that it does not exist,
  -- or the given group and every group that AWS has listed for the load balancer controller of the
  -- cluster in the VPC have been deleted by a request that succeeded, each after AWS has answered of
  -- each of its network interfaces that it does not exist. This holds for a retry library that makes
  -- no request but its action's, and returns without an error only after a run of the action that did.
  pub cleanup_security_group-CleanedUp :
      (cluster_arn security_group_id vpc_id : String) (h : History)
      → (cleanup_security_group env lib cluster_arn security_group_id vpc_id h).0 ≡ ok tt
      → CleanedUp env cluster_arn security_group_id vpc_id
          (cleanup_security_group env lib cluster_arn security_group_id vpc_id h).1
  cleanup_security_group-CleanedUp cluster_arn sg vpc_id h =
      Yields-ok {Q = λ _ h. CleanedUp env cluster_arn sg vpc_id h} _ h
        (cleanup-Yields cluster_arn sg vpc_id)

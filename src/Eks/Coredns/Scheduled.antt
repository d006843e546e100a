-- ===== src/Eks/Coredns/Scheduled.antt =====
-- What ScheduleCoredns has run when it succeeds (eks/coredns.go).
use kubergrunt.Prelude.{
  String, ◌≡◌, Bool, true, false, Bool-cases, ◌⊎◌, inl, inr, subst, sym, ◌∙◌, if◌then◌else◌,
}
use kubergrunt.Strings.Bytes.{bytes, contains}
use kubergrunt.Strings.Contains.{Holds, contains-Holds}
use kubergrunt.Cloud.Types.{KubectlOptions}
use kubergrunt.Cloud.Request.{History, Env}
use kubergrunt.Cloud.Monad.{ok}
use kubergrunt.Cloud.Yields.{Yields, Yields-bind, Yields-ok}
use kubergrunt.Cloud.Lasting.{Triple-both}
use kubergrunt.Cloud.Triple.{Triple-bind, Triple-weaken, Triple-yields, yields-Triple}
use kubergrunt.Kubectl.Quiet.{run_kubectl-Quiet}
use kubergrunt.Kubectl.Command.Ran.{Ran, Ran-Lasting, run_with_output-Yields, run_kubectl-Yields}
use kubergrunt.Eks.Coredns.{
  CorednsAnnotation, fargate, ec2, get_metadata_args, patch_args, add_compute_type, fargate_args,
  remove_compute_type, restart_args, annotate, schedule_coredns,
}

true_not_false : ¬ (true ≡ false)
true_not_false e = cc

module _ (env : Env) where
  -- The metadata names a compute type and the annotation was removed, or it does not and the
  -- deployment was restarted.
  abbrev pub Freed : String → History → Type 0
  Freed metadata h =
      (out : String) × ((Holds (bytes metadata) (bytes "compute-type")
          × Ran env (patch_args remove_compute_type) out h)
        ⊎ (¬ Holds (bytes metadata) (bytes "compute-type") × Ran env restart_args out h))

  -- For fargate the metadata was printed, and the deployment freed of the compute type; for ec2 the
  -- annotation was added.
  abbrev pub Scheduled : CorednsAnnotation → History → Type 0
  Scheduled fargate h =
      (metadata : String) × Ran env get_metadata_args metadata h × Freed metadata h
  Scheduled ec2 h = (out : String) × Ran env (patch_args add_compute_type) out h

  freed :
      (metadata out : String) (h : History)
      → Ran env (fargate_args metadata) out h
      → Freed metadata h
  unfolding fargate_args
  freed metadata out h ran =
      let found = contains-Holds (bytes metadata) (bytes "compute-type") in
      elim (Bool-cases (contains (bytes metadata) (bytes "compute-type"))) [
        | inl there ↦ (
          out,
          inl (
            found.0 there,
            subst
                (λ (b : Bool).
                  Ran env (if b then patch_args remove_compute_type else restart_args) out h)
                there ran,
          ),
        )
        | inr lacking ↦ (
          out,
          inr (
            λ there. absurd (true_not_false (sym (found.1 there) ∙ lacking)),
            subst
                (λ (b : Bool).
                  Ran env (if b then patch_args remove_compute_type else restart_args) out h)
                lacking ran,
          ),
        )
      ]

  annotate-Yields :
      (options : KubectlOptions) (annotation : CorednsAnnotation)
      → Yields (annotate env options annotation) (λ _ h. Scheduled annotation h)
  unfolding annotate
  annotate-Yields options fargate = yields-Triple _ (
      Triple-bind (Ran env get_metadata_args) _ _
        (Triple-yields _ (run_with_output-Yields env options get_metadata_args))
        (λ metadata.
          Triple-weaken _ (λ h k. k)
            (λ _ h (printed, (out, ran)). (metadata, printed, freed metadata out h ran))
            (Triple-both (Ran env get_metadata_args metadata) _
              (Ran-Lasting env get_metadata_args metadata)
              (run_kubectl-Quiet env options (fargate_args metadata))
              (run_kubectl-Yields env options (fargate_args metadata)))))
  annotate-Yields options ec2 = run_kubectl-Yields env options (patch_args add_compute_type)

  schedule-Yields :
      (options : KubectlOptions) (cluster_name profile_arn : String)
      (annotation : CorednsAnnotation)
      → Yields
          (schedule_coredns env options cluster_name profile_arn annotation)
          (λ _ h. Scheduled annotation h)
  unfolding schedule_coredns
  schedule-Yields options cluster_name profile_arn annotation = Yields-bind _ _ (λ region.
      Yields-bind _ _
        (λ arn. annotate-Yields (record options { eks_cluster_arn = arn }) annotation))

  -- When scheduling CoreDNS succeeds, kubectl has run these commands with success. For fargate it has
  -- printed the metadata of the deployment, and has removed the annotation of the compute type if the
  -- text "compute-type" stands somewhere in what it printed, and has restarted the deployment
  -- otherwise. For ec2 it has added the
  -- annotation.
  pub schedule_coredns-Scheduled :
      (options : KubectlOptions) (cluster_name profile_arn : String)
      (annotation : CorednsAnnotation) (h : History)
      → (schedule_coredns env options cluster_name profile_arn annotation h).0 ≡ ok tt
      → Scheduled annotation (schedule_coredns env options cluster_name profile_arn annotation h).1
  schedule_coredns-Scheduled options cluster_name profile_arn annotation h =
      Yields-ok {Q = λ _ h. Scheduled annotation h} _ h
        (schedule-Yields options cluster_name profile_arn annotation)

-- ===== src/Eks/Deploy/Safety.antt =====
-- RollOutDeployment (eks/deploy.go), run any number of times, each run being cut off anywhere.
use kubergrunt.Prelude.{[], ◌∷◌}
use kubergrunt.Cloud.Request.{Event, History, Env}
use kubergrunt.Cloud.Retry.{Retry, RetryLaws}
use kubergrunt.Cloud.Monad.{Outcome, ok, err, panic, hangs}
use kubergrunt.Cloud.Quiet.{
  Quiet-bind, Quiet-attempt, Quiet-pure, remove_file-Quiet, new_session-Quiet,
}
use kubergrunt.Eks.Deploy.{
  Session, RollOut, default_state_file, replace_nodes, remove_old_nodes, roll_out_deployment,
  delete,
}
use kubergrunt.Eks.Deploy.Trace.{EnvLaws, Sound, Honest}
use kubergrunt.Eks.Deploy.Meets.{Post, Meets, Meets-bind, Meets-quiet, Meets-weaken}
use kubergrunt.Eks.Deploy.Stages.{init-Meets}
use kubergrunt.Eks.Deploy.Stages.Early.{
  Ready, gather_asg_info-Meets, set_max_capacity-Meets, scale_up-Meets, wait_for_nodes-Meets,
  cordon_nodes-Meets, drain_nodes-Meets,
}
use kubergrunt.Eks.Deploy.Stages.Late.{
  detach_instances-Meets, terminate_instances-Meets, restore_capacity-Meets,
}

-- The later history is the earlier one, and requests made after it.
pub data Within (h : History) : History → Type 0 where
  all : Within h h
  cut : {h' : History} (e : Event) → Within h (e ∷ h') → Within h h'

-- The histories of roll outs: a run starts from the history of those before it, with any arguments,
-- and may be cut off after any of its requests.
pub data Runs (env : Env) (lib : Retry) : History → Type 0 where
  none_yet : Runs env lib []
  run :
      {h h' : History} (args : RollOut)
      → Runs env lib h
      → Within (roll_out_deployment env lib args h).1 h'
      → Runs env lib h'

module _ (env : Env) (laws : EnvLaws env) (lib : Retry) (retry_laws : RetryLaws lib) where
  replace_nodes-Meets :
      (args : RollOut) (s : Session)
      → Meets env
          (λ h. Honest s.state h)
          (replace_nodes env lib args s)
          (Ready (λ t. t.drain_nodes_done))
  unfolding replace_nodes
  replace_nodes-Meets args s =
      Meets-bind env _ _ (gather_asg_info-Meets env laws args.eks_asg_name s) (λ s₁.
        Meets-bind env _ _ (set_max_capacity-Meets env laws s₁) (λ s₂.
          Meets-bind env _ _ (scale_up-Meets env laws s₂) (λ s₃.
            Meets-bind env _ _
              (wait_for_nodes-Meets env laws lib retry_laws args.kubectl_options s₃)
              (λ s₄.
                Meets-bind env _ _ (cordon_nodes-Meets env laws args.kubectl_options s₄)
                  (λ s₅. drain_nodes-Meets env laws _ _ _ s₅)))))

  remove_old_nodes-Meets :
      (s : Session)
      → Meets env
          (Ready (λ t. t.drain_nodes_done) s)
          (remove_old_nodes env lib s)
          (Ready (λ t. t.terminate_instances_done))
  unfolding remove_old_nodes
  remove_old_nodes-Meets s = Meets-bind env _ _ (detach_instances-Meets env laws s) (λ s₁.
      Meets-bind env _ _ (terminate_instances-Meets env laws s₁)
        (λ s₂. restore_capacity-Meets env laws s₂))

  roll_out-Meets :
      (args : RollOut)
      → Meets env (λ _. Unit {0}) (roll_out_deployment env lib args) (λ _ _. Unit {0})
  unfolding roll_out_deployment delete
  roll_out-Meets args =
      Meets-bind env _ _
        (Meets-quiet env laws _ (new_session-Quiet env args.region) (λ h h' x k. k))
        (λ _. Meets-bind env _ _ (init-Meets env laws default_state_file _ _ _) (λ s₀.
          Meets-bind env _ _ (replace_nodes-Meets args s₀) (λ s₁.
            Meets-bind env _ _ (remove_old_nodes-Meets s₁) (λ s₂.
              Meets-weaken env _ (λ h k. tt) (λ _ h k. k)
                (Meets-quiet env laws _
                  (Quiet-bind _ _ (Quiet-attempt _ (remove_file-Quiet env _)) (λ _. Quiet-pure tt))
                  (λ h h' x k. k))))))

  Post-Sound :
      (Q : Unit {0} → History → Type 0) (r : Outcome (Unit {0})) (h : History)
      → Post env Q r h
      → Sound env h
  Post-Sound Q (ok a) h p = p.0
  Post-Sound Q (err e) h p = p
  Post-Sound Q panic h p = p
  Post-Sound Q hangs h p = p

  cut-Sound : {h h' : History} → Within h h' → Sound env h → Sound env h'
  cut-Sound all s = s
  cut-Sound (cut e w) s = (cut-Sound w s).1

  -- Take an encoding that gives a state back, in which the blank kubeconfig is no state, a file
  -- system in which what reads as a state was written there by a request of the history, batches that
  -- hold the list, and a retry library that runs nothing but its action. Whatever AWS and Kubernetes
  -- answer, and however often the roll out is run, stopped and resumed:
  -- when a request to terminate instances is made, each of them has been detached from its group by
  -- an earlier request that succeeded; and each state that is written to disk marks no stage as
  -- done before the stage that comes before it, nor the detachment before all the instances to
  -- replace are detached.
  pub Runs-Sound : {h : History} → Runs env lib h → Sound env h
  Runs-Sound none_yet = tt
  Runs-Sound (run {h} args before w) =
      let m = (roll_out-Meets args).at h (Runs-Sound before) tt in
      cut-Sound w (Post-Sound (λ _ _. Unit {0}) _ _ m)

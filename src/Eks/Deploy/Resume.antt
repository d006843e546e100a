-- ===== src/Eks/Deploy/Resume.antt =====
-- A run that picks up from a checkpoint (eks/deploy.go, eks/deploy_state.go).
use kubergrunt.Prelude.{String, true, false, some, ◌≡◌, ◌∙◌, ◌==◌}
use kubergrunt.Cloud.Types.{Asg, KubectlOptions}
use kubergrunt.Cloud.Request.{History, Env}
use kubergrunt.Cloud.Retry.{Retry}
use kubergrunt.Cloud.Monad.{ok, M, pure, or_panic, ◌>>=◌}
use kubergrunt.Cloud.Runs.{bind-ok}
use kubergrunt.Eks.Deploy.{
  Session, RollOut, first_asg, ensure_max_retries, gather_asg_info, set_max_capacity, scale_up,
  wait_for_nodes, cordon_nodes, drain_nodes, replace_nodes,
}
use kubergrunt.Eks.Deploy.Trace.{InOrder}

module _ (env : Env) (lib : Retry) where
  gather-skips :
      (name : String) (s : Session) (h : History) (asg : Asg)
      → s.state.gather_asg_info_done ≡ true
      → first_asg s.state.asgs ≡ some asg
      → (s.max_retries == 0) ≡ false
      → gather_asg_info env name s h ≡ (ok s, h)
  unfolding gather_asg_info ensure_max_retries or_panic pure ◌>>=◌
  gather-skips name s h asg done found retries = rw (done, found, retries)

  set_max-skips :
      (s : Session) (h : History)
      → s.state.set_max_capacity_done ≡ true
      → set_max_capacity env s h ≡ (ok s, h)
  unfolding set_max_capacity pure
  set_max-skips s h done = rw done

  scale_up-skips :
      (s : Session) (h : History) → s.state.scale_up_done ≡ true → scale_up env s h ≡ (ok s, h)
  unfolding scale_up pure
  scale_up-skips s h done = rw done

  wait-skips :
      (options : KubectlOptions) (s : Session) (h : History)
      → s.state.wait_for_nodes_done ≡ true
      → wait_for_nodes env lib options s h ≡ (ok s, h)
  unfolding wait_for_nodes pure
  wait-skips options s h done = rw done

  cordon-skips :
      (options : KubectlOptions) (s : Session) (h : History)
      → s.state.cordon_nodes_done ≡ true
      → cordon_nodes env options s h ≡ (ok s, h)
  unfolding cordon_nodes pure
  cordon-skips options s h done = rw done

  drain-skips :
      (args : RollOut) (s : Session) (h : History)
      → s.state.drain_nodes_done ≡ true
      → drain_nodes env args.kubectl_options args.drain_timeout args.delete_empty_dir_data s h
        ≡ (ok s, h)
  unfolding drain_nodes pure
  drain-skips args s h done = rw done

  -- A run that starts from a state in which the nodes are drained and the stages are in order goes
  -- straight to the removal of the old nodes: the six stages before make no request and change
  -- nothing, if the state has a group and a number of retries was given.
  pub replace_nodes-resumes :
      (args : RollOut) (s₀ : Session) (h : History) (asg : Asg)
      → InOrder s₀.state
      → s₀.state.drain_nodes_done ≡ true
      → first_asg s₀.state.asgs ≡ some asg
      → (s₀.max_retries == 0) ≡ false
      → replace_nodes env lib args s₀ h ≡ (ok s₀, h)
  unfolding replace_nodes
  replace_nodes-resumes args s₀ h asg order drained found retries =
      bind-ok (gather_asg_info env args.eks_asg_name s₀)
        (λ s. set_max_capacity env s >>= λ s. from_scale_up s) h h s₀
        (gather-skips args.eks_asg_name s₀ h asg (order.gathered max) found retries)
      ∙ bind-ok (set_max_capacity env s₀) from_scale_up h h s₀ (set_max-skips s₀ h max)
      ∙ bind-ok (scale_up env s₀) from_wait h h s₀ (scale_up-skips s₀ h scaled)
      ∙ bind-ok (wait_for_nodes env lib args.kubectl_options s₀) from_cordon h h s₀
          (wait-skips args.kubectl_options s₀ h waited)
      ∙ bind-ok (cordon_nodes env args.kubectl_options s₀) drain h h s₀
          (cordon-skips args.kubectl_options s₀ h cordoned)
      ∙ drain-skips args s₀ h drained
    where
      drain : Session → M Session
      drain = drain_nodes env args.kubectl_options args.drain_timeout args.delete_empty_dir_data

      from_cordon : Session → M Session
      from_cordon s = cordon_nodes env args.kubectl_options s >>= drain

      from_wait : Session → M Session
      from_wait s = wait_for_nodes env lib args.kubectl_options s >>= from_cordon

      from_scale_up : Session → M Session
      from_scale_up s = scale_up env s >>= from_wait

      cordoned : s₀.state.cordon_nodes_done ≡ true
      cordoned = order.cordoned drained

      waited : s₀.state.wait_for_nodes_done ≡ true
      waited = order.waited cordoned

      scaled : s₀.state.scale_up_done ≡ true
      scaled = order.scaled waited

      max : s₀.state.set_max_capacity_done ≡ true
      max = order.set_max scaled

-- ===== src/Kubectl/Command/Ran.antt =====
-- That a call of kubectl which succeeds has run the command (kubectl/command.go).
use kubergrunt.Prelude.{String, List, ◌∷◌, [], ◌++◌, refl, inl, inr, subst}
use kubergrunt.Cloud.Types.{
  AuthScheme, config_based, direct_auth, eks_cluster_based, KubectlOptions,
}
use kubergrunt.Cloud.Request.{Call, Answer, reply, failure, History, Env}
use kubergrunt.Cloud.Yields.{Yields, Yields-raise, Yields-bind}
use kubergrunt.Cloud.Answered.{Answered, Answered-more}
use kubergrunt.Cloud.Lasting.{Lasting, Triple-lasting}
use kubergrunt.Cloud.Triple.{
  Triple-pure, Triple-lift, Triple-bind, Triple-call, Triple-try, Triple-yields, yields-Triple,
}
use kubergrunt.Kubectl.Options.{auth_scheme}
use kubergrunt.Kubectl.Quiet.{remove_temp-Quiet}
use kubergrunt.Kubectl.Command.{
  flag_unless_empty, run_with_temp_config, run_for_scheme, run_kubectl_with_output, run_kubectl,
}

module _ (env : Env) where
  -- The shell has run kubectl with flags for the authentication and the arguments, and with this
  -- output.
  abbrev pub Ran : List String → String → History → Type 0
  Ran args out h =
      (flags : List String) × Answered env (Call.run_shell_command "kubectl" (flags ++ args))
        (reply out) h

  pub Ran-Lasting : (args : List String) (out : String) → Lasting (Ran args out)
  Ran-Lasting args out e h (flags, ran) = (flags, inr ran)

  with_config-Yields :
      (args : List String) (config : String × Answer (Unit {0}))
      → Yields (run_with_temp_config env args config) (Ran args)
  unfolding run_with_temp_config
  with_config-Yields args (tmpfile, failure e) = Yields-bind _ _ (λ _. Yields-raise e)
  with_config-Yields args (tmpfile, reply _) =
      let flags = "--kubeconfig" ∷ tmpfile ∷ [] in
      let c = Call.run_shell_command "kubectl" (flags ++ args) in
      yields-Triple _ (
        Triple-bind (λ r h. Answered env c r h) _ _ (Triple-try env c (λ h r _ e. inl (refl, e)))
          (λ r.
            Triple-bind (λ _ h. Answered env c r h) _ _
              (Triple-lasting (Answered env c r) _ (Answered-more env c r)
                (remove_temp-Quiet env tmpfile))
              (λ _.
                Triple-lift r
                  (λ out same h ran. (flags, subst (λ a. Answered env c a h) same ran)))))

  for_scheme-Yields :
      (options : KubectlOptions) (args : List String) (scheme : AuthScheme)
      → Yields (run_for_scheme env options args scheme) (Ran args)
  unfolding run_for_scheme
  for_scheme-Yields options args config_based =
      let flags =
        flag_unless_empty "--context" options.context_name
        ++ flag_unless_empty "--kubeconfig" options.config_path in
      yields-Triple _ (
        Triple-call env (Call.run_shell_command "kubectl" (flags ++ args))
          (λ h out _ e. (flags, inl (refl, e))))
  for_scheme-Yields options args direct_auth = Yields-bind _ _ (with_config-Yields args)
  for_scheme-Yields options args eks_cluster_based = Yields-bind _ _ (with_config-Yields args)

  pub run_with_output-Yields :
      (options : KubectlOptions) (args : List String)
      → Yields (run_kubectl_with_output env options args) (Ran args)
  unfolding run_kubectl_with_output
  run_with_output-Yields options args = for_scheme-Yields options args (auth_scheme options)

  pub run_kubectl-Yields :
      (options : KubectlOptions) (args : List String)
      → Yields (run_kubectl env options args) (λ _ h. (out : String) × Ran args out h)
  unfolding run_kubectl
  run_kubectl-Yields options args = yields-Triple _ (
      Triple-bind (Ran args) _ _ (Triple-yields _ (run_with_output-Yields options args))
        (λ out. Triple-pure tt (λ h ran. (out, ran))))

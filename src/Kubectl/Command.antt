-- ===== src/Kubectl/Command.antt =====
-- kubectl/command.go: a call of the kubectl command.
pub mod Ran
use kubergrunt.Prelude.{String, str_eq, List, [], ◌∷◌, ◌++◌, if◌then◌else◌}
use kubergrunt.Cloud.Types.{
  AuthScheme, config_based, direct_auth, eks_cluster_based, KubectlOptions,
}
use kubergrunt.Cloud.Request.{Call, Answer, reply, failure, Env}
use kubergrunt.Cloud.Monad.{M, pure, raise, lift, attempt, ◌>>=◌, ◌>>◌, call}
use kubergrunt.Kubectl.Options.{auth_scheme, temp_config_from_auth_info}

-- A flag with its value, left out where the value is empty.
abbrev pub flag_unless_empty : String → String → List String
flag_unless_empty flag value = if str_eq value "" then [] else flag ∷ value ∷ []

module _ (env : Env) where
  -- The deferred os.Remove of the temporary file, whose error is dropped.
  unfoldable pub remove_temp_file : String → M (Unit {0})
  remove_temp_file tmpfile =
      if str_eq tmpfile ""
      then pure tt
      else (do attempt (call env (Call.remove_file tmpfile)) >>= λ _. pure tt)

  -- The case of the temporary kubeconfig.
  unfoldable pub run_with_temp_config : List String → String × Answer (Unit {0}) → M String
  run_with_temp_config args (tmpfile, failure e) = do remove_temp_file tmpfile; raise e
  run_with_temp_config args (tmpfile, reply _) = do
    out ←
        attempt
          (call env (Call.run_shell_command "kubectl" (("--kubeconfig" ∷ tmpfile ∷ []) ++ args)))
    remove_temp_file tmpfile
    lift out

  unfoldable pub run_for_scheme : KubectlOptions → List String → AuthScheme → M String
  run_for_scheme options args config_based = call env (
      Call.run_shell_command "kubectl" (
        (flag_unless_empty "--context" options.context_name
          ++ flag_unless_empty "--kubeconfig" options.config_path)
        ++ args))
  run_for_scheme options args direct_auth = do
    config ← temp_config_from_auth_info env options
    run_with_temp_config args config
  run_for_scheme options args eks_cluster_based = do
    config ← temp_config_from_auth_info env options
    run_with_temp_config args config

  -- RunKubectlWithOutput. RunKubectl is the same with the output dropped.
  unfoldable pub run_kubectl_with_output : KubectlOptions → List String → M String
  run_kubectl_with_output options args = run_for_scheme options args (auth_scheme options)

  unfoldable pub run_kubectl : KubectlOptions → List String → M (Unit {0})
  run_kubectl options args = do run_kubectl_with_output options args >>= λ _. pure tt

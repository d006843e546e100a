-- ===== src/Kubectl/Quiet.antt =====
-- The code of eksawshelper and kubectl is quiet: it terminates no instance and writes no state file.
use kubergrunt.Prelude.{ℕ, zero, suc, String, Bool, List, [], ◌∷◌, ◌++◌, Option, none, some}
use kubergrunt.Cloud.Types.{
  KubectlOptions, KubeConfig, AuthScheme, config_based, direct_auth, eks_cluster_based, Service,
}
use kubergrunt.Cloud.Failure.{Error}
use kubergrunt.Cloud.Request.{Answer, reply, failure, Env}
use kubergrunt.Cloud.Monad.{M}
use kubergrunt.Cloud.Quiet.{
  Quiet, Quiet-bind, Quiet-if, Quiet-pure, Quiet-attempt, list_services-Quiet, quiet_rules,
}
use kubergrunt.Kubectl.Options
use kubergrunt.EksAwsHelper.{
  get_cluster_name_from_arn, get_region_from_arn, new_eks_client, get_cluster_by_arn,
  get_kubernetes_token_for_cluster,
}
use kubergrunt.Kubectl.Config.{create_initial_config, add_cluster_to_config}
use kubergrunt.Kubectl.Options.{
  save_config_to_file, temp_config_from_direct_auth_info, temp_config_from_eks_cluster_info,
  temp_config_for_scheme, temp_config_when_closed, temp_config_when_created, client_for_scheme,
  get_kube_credentials_from_eks_cluster, temp_config_from_auth_info,
  get_kubernetes_client_from_options, auth_scheme,
}
use kubergrunt.Kubectl.Command.{
  remove_temp_file, run_with_temp_config, run_for_scheme, run_kubectl_with_output, run_kubectl,
}
use kubergrunt.Kubectl.Nodes.{
  nodes_ready_loop, report_all_not_ready_nodes, wait_for_nodes_ready, drain_node, cordon_node,
  numbered, run_goroutines, start_goroutines, for_all_nodes, drain_nodes, cordon_nodes,
  return_error,
}
use kubergrunt.Kubectl.Services.{
  load_balancers_of, service_pages, get_all_services, get_aws_load_balancers,
}

module _ (env : Env) where
  pub name_from_arn-Quiet : (arn : String) → Quiet (get_cluster_name_from_arn env arn)
  unfolding get_cluster_name_from_arn
  name_from_arn-Quiet arn = search quiet_rules

  pub region_from_arn-Quiet : (arn : String) → Quiet (get_region_from_arn env arn)
  unfolding get_region_from_arn
  region_from_arn-Quiet arn = search quiet_rules

  pub cluster_by_arn-Quiet : (arn : String) → Quiet (get_cluster_by_arn env arn)
  unfolding get_cluster_by_arn new_eks_client
  cluster_by_arn-Quiet arn =
      search (quiet_rules, name_from_arn-Quiet, region_from_arn-Quiet) depth 8

  pub credentials-Quiet : (arn : String) → Quiet (get_kube_credentials_from_eks_cluster env arn)
  unfolding get_kube_credentials_from_eks_cluster get_kubernetes_token_for_cluster
  credentials-Quiet arn = search (quiet_rules, name_from_arn-Quiet, cluster_by_arn-Quiet) depth 10

  initial_config-Quiet : (path : String) → Quiet (create_initial_config env path)
  unfolding create_initial_config
  initial_config-Quiet path = search quiet_rules

  add_cluster-Quiet :
      (config : KubeConfig) (name endpoint ca : String)
      → Quiet (add_cluster_to_config env config name endpoint ca)
  unfolding add_cluster_to_config
  add_cluster-Quiet config name endpoint ca = search quiet_rules

  save_config-Quiet :
      (config : KubeConfig) (path : String) → Quiet (save_config_to_file env config path)
  unfolding save_config_to_file
  save_config-Quiet config path = search (quiet_rules, initial_config-Quiet)

  direct_config-Quiet :
      (path : String) (info : Options.ServerInfo)
      → Quiet (temp_config_from_direct_auth_info env path info)
  unfolding temp_config_from_direct_auth_info
  direct_config-Quiet path info = search (quiet_rules, add_cluster-Quiet, save_config-Quiet)

  eks_config-Quiet : (path arn : String) → Quiet (temp_config_from_eks_cluster_info env path arn)
  unfolding temp_config_from_eks_cluster_info
  eks_config-Quiet path arn = search (quiet_rules, credentials-Quiet, direct_config-Quiet)

  scheme_config-Quiet :
      (options : KubectlOptions) (path : String) (scheme : AuthScheme)
      → Quiet (temp_config_for_scheme env options path scheme)
  unfolding temp_config_for_scheme
  scheme_config-Quiet options path direct_auth = search (quiet_rules, direct_config-Quiet)
  scheme_config-Quiet options path eks_cluster_based = search (quiet_rules, eks_config-Quiet)
  scheme_config-Quiet options path config_based = search quiet_rules

  closed-Quiet :
      (options : KubectlOptions) (path : String) (r : Answer (Unit {0}))
      → Quiet (temp_config_when_closed env options path r)
  unfolding temp_config_when_closed
  closed-Quiet options path (failure e) = search quiet_rules
  closed-Quiet options path (reply _) = scheme_config-Quiet options path (auth_scheme options)

  created-Quiet :
      (options : KubectlOptions) (r : Answer String)
      → Quiet (temp_config_when_created env options r)
  unfolding temp_config_when_created
  created-Quiet options (failure e) = search quiet_rules
  created-Quiet options (reply path) = search (quiet_rules, closed-Quiet)

  auth_info-Quiet : (options : KubectlOptions) → Quiet (temp_config_from_auth_info env options)
  unfolding temp_config_from_auth_info
  auth_info-Quiet options = search (quiet_rules, created-Quiet)

  client_scheme-Quiet :
      (options : KubectlOptions) (scheme : AuthScheme)
      → Quiet (client_for_scheme env options scheme)
  unfolding client_for_scheme
  client_scheme-Quiet options config_based = search quiet_rules
  client_scheme-Quiet options direct_auth = search quiet_rules
  client_scheme-Quiet options eks_cluster_based = search (quiet_rules, credentials-Quiet)

  pub client-Quiet :
      (options : KubectlOptions) → Quiet (get_kubernetes_client_from_options env options)
  unfolding get_kubernetes_client_from_options
  client-Quiet options = client_scheme-Quiet options (auth_scheme options)

  pub remove_temp-Quiet : (path : String) → Quiet (remove_temp_file env path)
  unfolding remove_temp_file
  remove_temp-Quiet path = search quiet_rules

  with_config-Quiet :
      (args : List String) (path : String) (r : Answer (Unit {0}))
      → Quiet (run_with_temp_config env args (path, r))
  unfolding run_with_temp_config
  with_config-Quiet args path (failure e) = search (quiet_rules, remove_temp-Quiet)
  with_config-Quiet args path (reply _) = search (quiet_rules, remove_temp-Quiet)

  run_scheme-Quiet :
      (options : KubectlOptions) (args : List String) (scheme : AuthScheme)
      → Quiet (run_for_scheme env options args scheme)
  unfolding run_for_scheme
  run_scheme-Quiet options args config_based = search quiet_rules
  run_scheme-Quiet options args direct_auth =
      Quiet-bind _ _ (auth_info-Quiet options) (λ c. with_config-Quiet args c.0 c.1)
  run_scheme-Quiet options args eks_cluster_based =
      Quiet-bind _ _ (auth_info-Quiet options) (λ c. with_config-Quiet args c.0 c.1)

  pub run_kubectl-Quiet :
      (options : KubectlOptions) (args : List String) → Quiet (run_kubectl env options args)
  unfolding run_kubectl run_kubectl_with_output
  run_kubectl-Quiet options args =
      Quiet-bind _ _ (run_scheme-Quiet options args (auth_scheme options)) (λ _. Quiet-pure tt)

  ready_loop-Quiet :
      (ids : List String) (retries sleep : ℕ) → Quiet (nodes_ready_loop env ids retries sleep)
  unfolding nodes_ready_loop
  ready_loop-Quiet ids zero sleep = search quiet_rules
  ready_loop-Quiet ids (suc retries) sleep =
      let ih = ready_loop-Quiet ids retries sleep in search quiet_rules

  pub wait_ready-Quiet :
      (options : KubectlOptions) (ids : List String) (retries sleep : ℕ)
      → Quiet (wait_for_nodes_ready env options ids retries sleep)
  unfolding wait_for_nodes_ready report_all_not_ready_nodes
  wait_ready-Quiet options ids retries sleep =
      search (quiet_rules, client-Quiet, ready_loop-Quiet) depth 8

  pub return_error-Quiet : (o : Option Error) → Quiet (return_error o)
  unfolding return_error
  return_error-Quiet none = search quiet_rules
  return_error-Quiet (some e) = search quiet_rules

  goroutines-Quiet :
      (command : String → M (Unit {0})) (goroutines : List (ℕ × String))
      → ((id : String) → Quiet (command id))
      → Quiet (run_goroutines env command goroutines)
  unfolding run_goroutines
  goroutines-Quiet command [] q = Quiet-pure []
  goroutines-Quiet command ((place, id) ∷ goroutines) q =
      Quiet-bind _ _ (Quiet-attempt _ (q id))
        (λ r. Quiet-bind _ _ (goroutines-Quiet command goroutines q) (λ answers. Quiet-pure _))

  all_nodes-Quiet :
      (command : String → M (Unit {0})) (ids : List String)
      → ((id : String) → Quiet (command id))
      → Quiet (for_all_nodes env command ids)
  unfolding for_all_nodes start_goroutines
  all_nodes-Quiet command ids q =
      Quiet-bind _ _
        (record { at = λ h. (goroutines-Quiet command (env.scheduled h (numbered 0 ids)) q).at h })
        (λ answers. Quiet-pure _)

  pub drain_nodes-Quiet :
      (options : KubectlOptions) (ids : List String) (timeout : ℕ) (delete : Bool)
      → Quiet (drain_nodes env options ids timeout delete)
  unfolding drain_nodes drain_node
  drain_nodes-Quiet options ids timeout delete =
      Quiet-bind _ _ (all_nodes-Quiet _ ids (λ id. run_kubectl-Quiet options _))
        (λ errs. return_error-Quiet _)

  pub cordon_nodes-Quiet :
      (options : KubectlOptions) (ids : List String) → Quiet (cordon_nodes env options ids)
  unfolding cordon_nodes cordon_node
  cordon_nodes-Quiet options ids =
      Quiet-bind _ _ (all_nodes-Quiet _ ids (λ id. run_kubectl-Quiet options _))
        (λ errs. return_error-Quiet _)

  load_balancers-Quiet : (services : List Service) → Quiet (load_balancers_of services)
  unfolding load_balancers_of
  load_balancers-Quiet [] = search quiet_rules
  load_balancers-Quiet (service ∷ services) =
      let ih = load_balancers-Quiet services in search quiet_rules depth 8

  pages-Quiet :
      (fuel : ℕ) (token : String) (services : List Service)
      → Quiet (service_pages env fuel token services)
  unfolding service_pages
  pages-Quiet zero token services = search quiet_rules
  pages-Quiet (suc fuel) token services = Quiet-bind _ _ (list_services-Quiet env token) (λ resp.
      Quiet-if _ _ _ (Quiet-pure _) (pages-Quiet fuel resp.continue_token (services ++ resp.items)))

  pub get_lbs-Quiet : (options : KubectlOptions) → Quiet (get_aws_load_balancers env options)
  unfolding get_aws_load_balancers get_all_services
  get_lbs-Quiet options =
      search (quiet_rules, client-Quiet, pages-Quiet, load_balancers-Quiet) depth 8

-- ===== src/Kubectl/Nodes.antt =====
-- kubectl/node.go: waiting for nodes, cordoning and draining them. The goroutines of a drain run
-- one kubectl command each, in any order: the scheduler's choice is a parameter, which may depend on
-- all requests made before.
pub mod Ready
pub mod Order
use kubergrunt.Prelude.{
  ℕ, zero, suc, String, str_eq, Bool, true, false, Option, none, some, List, [], ◌∷◌, ◌++◌, ◌&&◌,
  ◌==◌, if◌then◌else◌, length,
}
use kubergrunt.Cloud.Types.{Condition, Node, KubectlOptions}
use kubergrunt.Cloud.Failure.{Error, node_ready_timeout}
use kubergrunt.Cloud.Request.{Call, Answer, reply, failure, Env}
use kubergrunt.Cloud.Monad.{M, pure, raise, attempt, ◌>>=◌, ◌>>◌, call}
use kubergrunt.Kubectl.Options.{get_kubernetes_client_from_options}
use kubergrunt.Kubectl.Command.{run_kubectl}

-- The status of the first condition of the type "Ready" decides.
unfoldable pub conditions_ready : List Condition → Bool
conditions_ready [] = false
conditions_ready (c ∷ cs) =
    if str_eq c.condition_type "Ready" then str_eq c.status "True" else conditions_ready cs

unfoldable pub is_node_ready : Node → Bool
is_node_ready node = conditions_ready node.conditions

unfoldable pub all_nodes_ready : List Node → Bool
all_nodes_ready [] = true
all_nodes_ready (node ∷ nodes) = if is_node_ready node then all_nodes_ready nodes else false

-- `multierror.ErrorOrNil`, returned as an error.
unfoldable pub return_error : Option Error → M (Unit {0})
return_error none = pure tt
return_error (some e) = raise e

-- The goroutines of the nodes, each with its place in the list.
unfoldable pub numbered : ℕ → List String → List (ℕ × String)
numbered n [] = []
numbered n (node_id ∷ node_ids) = (n, node_id) ∷ numbered (suc n) node_ids

-- What the channel of a place holds. It is closed after a send, and gives the zero value from then.
unfoldable pub received : ℕ → List (ℕ × Answer (Unit {0})) → Answer (Unit {0})
received place [] = reply tt
received place ((place', r) ∷ answers) = if place == place' then r else received place answers

module _ (env : Env) where
  unfoldable pub filter_nodes_by_id : List Node → List String → List Node
  filter_nodes_by_id [] node_ids = []
  filter_nodes_by_id (node ∷ nodes) node_ids =
      if env.list_contains_element node_ids node.name
      then node ∷ filter_nodes_by_id nodes node_ids
      else filter_nodes_by_id nodes node_ids

  -- The test that ends the wait.
  unfoldable pub nodes_registered_and_ready : List Node → List String → Bool
  nodes_registered_and_ready nodes node_ids =
      let new_nodes = filter_nodes_by_id nodes node_ids in
      (length new_nodes == length node_ids) && all_nodes_ready new_nodes

  -- The loop with the retries that are left; the reply is whether the nodes were ready.
  unfoldable pub nodes_ready_loop : List String → ℕ → ℕ → M Bool
  nodes_ready_loop node_ids zero sleep = pure false
  nodes_ready_loop node_ids (suc retries) sleep = do
    nodes ← call env Call.list_nodes
    if nodes_registered_and_ready nodes node_ids
        then pure true
        else (do call env (Call.sleep sleep); nodes_ready_loop node_ids retries sleep)

  -- reportAllNotReadyNodes only logs.
  unfoldable pub report_all_not_ready_nodes : M (Unit {0})
  report_all_not_ready_nodes = do call env Call.list_nodes >>= λ _. pure tt

  unfoldable pub wait_for_nodes_ready : KubectlOptions → List String → ℕ → ℕ → M (Unit {0})
  wait_for_nodes_ready options node_ids max_retries sleep = do
    get_kubernetes_client_from_options env options
    ready ← nodes_ready_loop node_ids max_retries sleep
    if ready
        then pure tt
        else (do report_all_not_ready_nodes; raise (node_ready_timeout (length node_ids)))

  unfoldable pub drain_args : String → ℕ → Bool → List String
  drain_args node_id timeout delete_empty_dir_data =
      ("drain" ∷ node_id ∷ "--ignore-daemonsets" ∷ "--timeout" ∷ env.duration_string timeout ∷ [])
      ++ (if delete_empty_dir_data then "--delete-emptydir-data" ∷ [] else [])

  unfoldable pub drain_node : KubectlOptions → ℕ → Bool → String → M (Unit {0})
  drain_node options timeout delete_empty_dir_data node_id =
      run_kubectl env options (drain_args node_id timeout delete_empty_dir_data)

  unfoldable pub cordon_node : KubectlOptions → String → M (Unit {0})
  cordon_node options node_id = run_kubectl env options ("cordon" ∷ node_id ∷ [])

  -- The goroutines run in the order of the scheduler, whatever becomes of the others, and each
  -- sends its answer to the channel of its place.
  unfoldable pub run_goroutines :
      (String → M (Unit {0})) → List (ℕ × String) → M (List (ℕ × Answer (Unit {0})))
  run_goroutines command [] = pure []
  run_goroutines command ((place, node_id) ∷ goroutines) = do
    r ← attempt (command node_id)
    answers ← run_goroutines command goroutines
    pure ((place, r) ∷ answers)

  unfoldable pub start_goroutines :
      (String → M (Unit {0})) → List (ℕ × String) → M (List (ℕ × Answer (Unit {0})))
  start_goroutines command goroutines h = run_goroutines command (env.scheduled h goroutines) h

  -- The error of one command, if any, joins those collected.
  unfoldable pub collect : List Error → Answer (Unit {0}) → List Error
  collect errs (reply _) = errs
  collect errs (failure e) = env.append_error errs e

  -- The errors in the order of the nodes.
  unfoldable pub collect_all :
      List (ℕ × Answer (Unit {0})) → List (ℕ × String) → List Error → List Error
  collect_all answers [] errs = errs
  collect_all answers ((place, _) ∷ goroutines) errs =
      collect_all answers goroutines (collect errs (received place answers))

  -- A goroutine for each node, and the errors of all of them.
  unfoldable pub for_all_nodes : (String → M (Unit {0})) → List String → M (List Error)
  for_all_nodes command node_ids = do
    answers ← start_goroutines command (numbered 0 node_ids)
    pure (collect_all answers (numbered 0 node_ids) [])

  unfoldable pub drain_nodes : KubectlOptions → List String → ℕ → Bool → M (Unit {0})
  drain_nodes options node_ids timeout delete_empty_dir_data = do
    errs ← for_all_nodes (drain_node options timeout delete_empty_dir_data) node_ids
    return_error (env.error_or_nil errs)

  unfoldable pub cordon_nodes : KubectlOptions → List String → M (Unit {0})
  cordon_nodes options node_ids = do
    errs ← for_all_nodes (cordon_node options) node_ids
    return_error (env.error_or_nil errs)

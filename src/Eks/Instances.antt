-- ===== src/Eks/Instances.antt =====
-- eks/instances.go: the EC2 instances behind a list of ids, and their termination.
pub mod Laws
use kubergrunt.Prelude.{
  ℕ, zero, suc, String, Bool, true, false, Option, none, some, List, [], ◌∷◌, ◌++◌, if◌then◌else◌,
}
use mathlib.Core.List.{flatten}
use kubergrunt.Cloud.Types.{Ec2Instance}
use kubergrunt.Cloud.Failure.{Error, multiple, of_list}
use kubergrunt.Cloud.Request.{Call, Answer, reply, failure, Env}
use kubergrunt.Cloud.Monad.{M, pure, raise, hang, or_panic, attempt, ◌>>=◌, ◌>>◌, call}

-- `*inst.PrivateDnsName` for each instance.
unfoldable pub kube_node_names_from_instances : List Ec2Instance → M (List String)
kube_node_names_from_instances [] = pure []
kube_node_names_from_instances (inst ∷ instances) = do
  name ← or_panic inst.private_dns_name
  names ← kube_node_names_from_instances instances
  pure (name ∷ names)

-- MultipleTerminateInstanceErrors.AddError has a value receiver: it appends to its own copy of the
-- struct, and the errors of its caller stay as they are.
unfoldable pub add_error : List Error → Error → List Error
add_error errors new_err = errors

-- The errors that are returned after the last batch.
unfoldable pub terminate_result : List Error → M (Unit {0})
terminate_result [] = pure tt
terminate_result (e ∷ es) = raise (multiple (of_list (e ∷ es)))

module _ (env : Env) where
  -- The loop of instanceDetailsFromIds, for as many pages as the fuel allows.
  unfoldable pub instance_pages :
      ℕ → List String → Option String → List Ec2Instance → M (List Ec2Instance)
  instance_pages zero id_list next_token instances = hang
  instance_pages (suc fuel) id_list next_token instances = do
    response ← call env (Call.describe_instances id_list next_token)
    let all = instances ++ flatten response.reservations
    elim response.next_token [
      | none ↦ pure all
      | some token ↦ instance_pages fuel id_list (some token) all
    ]

  unfoldable pub instance_details_from_ids : List String → M (List Ec2Instance)
  instance_details_from_ids id_list = instance_pages env.max_pages id_list none []

  -- After a request to terminate a batch: the wait for its instances.
  unfoldable pub after_terminate : List String → List Error → Answer (Unit {0}) → M (List Error)
  after_terminate batch errs (failure e) = pure (add_error errs e)
  after_terminate batch errs (reply _) = do
    waited ← attempt (call env (Call.wait_until_instance_terminated batch))
    elim waited [ reply _ ↦ pure errs | failure e ↦ pure (add_error errs e) ]

  -- One round for each batch; a failed batch does not stop the next.
  unfoldable pub terminate_batches : List (List String) → List Error → M (List Error)
  terminate_batches [] errs = pure errs
  terminate_batches (batch ∷ batches) errs = do
    r ← attempt (call env (Call.terminate_instances batch))
    errs' ← after_terminate batch errs r
    terminate_batches batches errs'

  unfoldable pub terminate_instances : List String → M (Unit {0})
  terminate_instances id_list = do
    errs ← terminate_batches (env.batch_list_into_groups_of id_list 1000) []
    terminate_result errs

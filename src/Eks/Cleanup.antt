-- ===== src/Eks/Cleanup.antt =====
-- eks/cleanup.go: the deletion of the security groups that an EKS cluster leaves behind, and of the
-- network interfaces that use them.
pub mod Quiet
pub mod Gone
pub mod Deleted
use kubergrunt.Prelude.{
  ℕ, String, str_eq, Bool, true, false, Option, none, some, List, [], ◌∷◌, ◌||◌, if◌then◌else◌,
}
use kubergrunt.Cloud.Types.{Text, Attachment, NetworkInterface, SecurityGroup}
use kubergrunt.Cloud.Failure.{
  Error, external, retry_fatal, max_retries_exceeded, network_interface_detached_timeout,
  network_interface_deleted_timeout,
}
use kubergrunt.Cloud.Request.{Call, Answer, reply, failure, Env}
use kubergrunt.Cloud.Retry.{Retry}
use kubergrunt.Cloud.Monad.{M, pure, raise, attempt, ◌>>=◌, ◌>>◌, call}
use kubergrunt.EksAwsHelper.{get_region_from_arn, get_cluster_name_from_arn}
use kubergrunt.Eks.AutoScaling.{string_value}

-- 10 seconds, in nanoseconds.
abbrev pub wait_sleep_between_retries : ℕ
wait_sleep_between_retries = 10000000000

abbrev pub wait_max_retries : ℕ
wait_max_retries = 30

-- The code of an AWS error.
unfoldable pub has_code : String → Error → Bool
has_code code (external c) = str_eq c code
has_code code _ = false

unfoldable pub is_ni_attachment_not_found_err : Error → Bool
is_ni_attachment_not_found_err = has_code "InvalidAttachmentID.NotFound"

unfoldable pub is_ni_not_found_err : Error → Bool
is_ni_not_found_err = has_code "InvalidNetworkInterfaceID.NotFound"

unfoldable pub is_ni_detached : Option Attachment → Bool
is_ni_detached none = true
is_ni_detached (some attachment) = str_eq (string_value attachment.status) "detached"

-- After a retry loop: a timeout gets an error of its own, by the interface.
unfoldable pub after_retry : Error → Answer (Unit {0}) → M (Unit {0})
after_retry timeout (reply _) = pure tt
after_retry timeout (failure max_retries_exceeded) = raise timeout
after_retry timeout (failure e) = raise e

-- What is made of the answer to one request of a loop.
unfoldable pub detach_answer : Answer (Unit {0}) → M (Unit {0})
detach_answer (reply _) = pure tt
detach_answer (failure e) = if is_ni_attachment_not_found_err e then pure tt else raise e

unfoldable pub delete_answer : Answer (Unit {0}) → M (Unit {0})
delete_answer (reply _) = pure tt
delete_answer (failure e) =
    if is_ni_not_found_err e
    then pure tt
    else if has_code "InvalidParameterValue" e
    then raise e
    else raise (retry_fatal e)

unfoldable pub detached_answer : Answer (Option Attachment) → M (Unit {0})
detached_answer (reply attachment) =
    if is_ni_detached attachment
    then pure tt
    else raise (external "Network Interface not detached.")
detached_answer (failure e) = if is_ni_not_found_err e then pure tt else raise (retry_fatal e)

unfoldable pub deleted_answer : Answer (Unit {0}) → M (Unit {0})
deleted_answer (reply _) = raise (external "Network Interface not deleted.")
deleted_answer (failure e) = if is_ni_not_found_err e then pure tt else raise (retry_fatal e)

-- The errors of a deletion: a group that is not found ends the clean-up, without an error.
unfoldable pub group_deleted : Answer (Unit {0}) → M Bool
group_deleted (reply _) = pure true
group_deleted (failure e) = if has_code "InvalidGroup.NotFound" e then pure false else raise e

module _ (env : Env) where
  unfoldable pub request_detach : Attachment → M (Unit {0})
  request_detach attachment =
      call env (Call.detach_network_interface (string_value attachment.attachment_id))

  unfoldable pub detach_attachment : Option Attachment → M (Unit {0})
  detach_attachment none = pure tt
  detach_attachment (some attachment) =
      if str_eq (string_value attachment.status) "detached"
      then pure tt
      else (do r ← attempt (request_detach attachment); detach_answer r)

  unfoldable pub detach_network_interfaces : List NetworkInterface → M (Unit {0})
  detach_network_interfaces [] = pure tt
  detach_network_interfaces (ni ∷ nis) = do
    detach_attachment ni.attachment
    detach_network_interfaces nis

  -- The actions of the three retry loops.
  unfoldable pub try_delete : Option String → M (Unit {0})
  try_delete ni = do r ← attempt (call env (Call.delete_network_interface ni)); delete_answer r

  unfoldable pub poll_detached : Option String → M (Unit {0})
  poll_detached ni = do r ← attempt (call env (Call.describe_attachment ni)); detached_answer r

  unfoldable pub poll_deleted : Option String → M (Unit {0})
  poll_deleted ni = do r ← attempt (call env (Call.describe_network_interface ni)); deleted_answer r

  unfoldable pub delete_security_group : String → M Bool
  delete_security_group group_id = do
    r ← attempt (call env (Call.delete_security_group group_id))
    group_deleted r

module _ (env : Env) (lib : Retry) where
  unfoldable pub delete_network_interfaces : List NetworkInterface → M (Unit {0})
  delete_network_interfaces [] = pure tt
  delete_network_interfaces (ni ∷ nis) = do
    lib.do_with_retry wait_max_retries wait_sleep_between_retries
        (try_delete env ni.network_interface_id)
    delete_network_interfaces nis

  unfoldable pub wait_for_network_interfaces_to_be_detached : List NetworkInterface → M (Unit {0})
  wait_for_network_interfaces_to_be_detached [] = pure tt
  wait_for_network_interfaces_to_be_detached (ni ∷ nis) = do
    attempt (
          lib.do_with_retry wait_max_retries wait_sleep_between_retries
            (poll_detached env ni.network_interface_id))
        >>= after_retry (network_interface_detached_timeout (string_value ni.network_interface_id))
    wait_for_network_interfaces_to_be_detached nis

  unfoldable pub wait_for_network_interfaces_to_be_deleted : List NetworkInterface → M (Unit {0})
  wait_for_network_interfaces_to_be_deleted [] = pure tt
  wait_for_network_interfaces_to_be_deleted (ni ∷ nis) = do
    attempt (
          lib.do_with_retry wait_max_retries wait_sleep_between_retries
            (poll_deleted env ni.network_interface_id))
        >>= after_retry (network_interface_deleted_timeout (string_value ni.network_interface_id))
    wait_for_network_interfaces_to_be_deleted nis

  -- The wait is left out where there is nothing to wait for, as it is by the loop itself.
  unfoldable pub wait_if_any : List NetworkInterface → M (Unit {0})
  wait_if_any [] = pure tt
  wait_if_any (ni ∷ nis) = wait_for_network_interfaces_to_be_detached (ni ∷ nis)

  unfoldable pub delete_dependencies : String → M (Unit {0})
  delete_dependencies security_group_id = do
    nis ← call env (Call.describe_network_interfaces_of_group security_group_id)
    detach_network_interfaces env nis
    wait_if_any nis
    delete_network_interfaces nis
    wait_for_network_interfaces_to_be_deleted nis

  -- The loop over the groups of the load balancer controller.
  unfoldable pub clean_up_groups : List SecurityGroup → M (Unit {0})
  clean_up_groups [] = pure tt
  clean_up_groups (group ∷ groups) = do
    delete_dependencies (string_value group.group_id)
    deleted ← delete_security_group env (string_value group.group_id)
    if deleted then clean_up_groups groups else pure tt

  unfoldable pub clean_up_controller_groups : String → Text → Bool → M (Unit {0})
  clean_up_controller_groups vpc_id cluster_id false = pure tt
  clean_up_controller_groups vpc_id cluster_id true = do
    groups ← call env (Call.describe_security_groups vpc_id cluster_id)
    clean_up_groups groups

  unfoldable pub cleanup_security_group : String → String → String → M (Unit {0})
  cleanup_security_group cluster_arn security_group_id vpc_id = do
    region ← get_region_from_arn env cluster_arn
    cluster_id ← get_cluster_name_from_arn env cluster_arn
    call env (Call.new_session region)
    delete_dependencies security_group_id
    deleted ← delete_security_group env security_group_id
    clean_up_controller_groups vpc_id cluster_id deleted

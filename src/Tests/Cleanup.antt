-- ===== src/Tests/Cleanup.antt =====
-- The theorems on the clean-up of security groups, applied in the small cluster (eks/cleanup.go).
use kubergrunt.Prelude.{[], refl}
use kubergrunt.Eks.Cleanup.Gone.{Cleared, delete_dependencies-Cleared}
use kubergrunt.Eks.Cleanup.Deleted.{CleanedUp, cleanup_security_group-CleanedUp}
use kubergrunt.Eks.Cleanup.{
  delete_dependencies, cleanup_security_group, detach_network_interfaces, detach_attachment,
  request_detach, detach_answer, wait_if_any, wait_for_network_interfaces_to_be_detached,
  poll_detached, detached_answer, is_ni_detached, after_retry, delete_network_interfaces,
  try_delete, delete_answer, deleted_answer, has_code, is_ni_attachment_not_found_err,
  is_ni_not_found_err, poll_deleted, wait_for_network_interfaces_to_be_deleted,
  clean_up_controller_groups, clean_up_groups, delete_security_group, group_deleted,
}
use kubergrunt.Cloud.Monad.{◌>>=◌, call, attempt, pure, raise, lift}
use kubergrunt.EksAwsHelper.{
  get_region_from_arn, get_cluster_name_from_arn, cluster_name_of_resource,
}
use kubergrunt.Strings.Split.{join, onto_head, split}
use kubergrunt.Tests.World.{world, once, once-RetryLaws}

delete_dependencies-Cleared_example :
    Cleared world "sg-1" (delete_dependencies world once "sg-1" []).1
unfolding delete_dependencies detach_network_interfaces detach_attachment request_detach
    detach_answer wait_if_any wait_for_network_interfaces_to_be_detached poll_detached
    detached_answer is_ni_detached after_retry delete_network_interfaces try_delete delete_answer
    deleted_answer has_code is_ni_attachment_not_found_err is_ni_not_found_err poll_deleted
    wait_for_network_interfaces_to_be_deleted ◌>>=◌ call attempt pure raise
delete_dependencies-Cleared_example =
    delete_dependencies-Cleared world once once-RetryLaws "sg-1" [] refl

cleanup_security_group-CleanedUp_example :
    CleanedUp world "arn" "sg-1" "vpc-1"
      (cleanup_security_group world once "arn" "sg-1" "vpc-1" []).1
unfolding cleanup_security_group delete_dependencies get_region_from_arn get_cluster_name_from_arn
    cluster_name_of_resource join onto_head split lift detach_network_interfaces detach_attachment
    request_detach detach_answer wait_if_any wait_for_network_interfaces_to_be_detached
    poll_detached detached_answer is_ni_detached after_retry delete_network_interfaces try_delete
    delete_answer deleted_answer has_code is_ni_attachment_not_found_err is_ni_not_found_err
    poll_deleted wait_for_network_interfaces_to_be_deleted clean_up_controller_groups
    clean_up_groups delete_security_group group_deleted ◌>>=◌ call attempt pure raise
cleanup_security_group-CleanedUp_example =
    cleanup_security_group-CleanedUp world once once-RetryLaws "arn" "sg-1" "vpc-1" [] refl

-- ===== src/Eks/VerifyCluster.antt =====
-- eks/cluster.go: the verification that a cluster is up. A number of retries and a sleep, in
-- nanoseconds, are not negative; the default number of retries is computed in natural numbers, for a
-- sleep that is not zero.
pub mod Active
pub mod Up
use kubergrunt.Prelude.{
  ℕ, zero, suc, ◌/◌, String, str_eq, Bool, true, false, Option, none, some, ◌==◌, ◌&&◌, ◌||◌,
  if◌then◌else◌,
}
use kubergrunt.Cloud.Types.{Cluster}
use kubergrunt.Cloud.Failure.{Error, eks_cluster_not_ready, eks_cluster_ready_timeout}
use kubergrunt.Cloud.Request.{Call, Answer, reply, failure, Env}
use kubergrunt.Cloud.Monad.{M, pure, raise, crash, attempt, ◌>>=◌, ◌>>◌, call}
use kubergrunt.EksAwsHelper.{get_cluster_by_arn}

unfoldable pub cluster_is_active : Option Cluster → Bool
cluster_is_active none = false
cluster_is_active (some cluster) = str_eq cluster.status "ACTIVE"

-- After an error the cluster is nil.
unfoldable pub cluster_or_nil : Answer (Option Cluster) → Option Cluster
cluster_or_nil (reply cluster) = cluster
cluster_or_nil (failure e) = none

-- The error of the first look-up.
unfoldable pub look_up_error : String → Answer (Option Cluster) → Option Error
look_up_error arn (failure e) = some e
look_up_error arn (reply cluster) =
    if cluster_is_active cluster then none else some (eks_cluster_not_ready arn)

-- 200, 403 and 401 mean that the API server is up.
unfoldable pub status_is_up : ℕ → Bool
status_is_up status = (status == 200) || ((status == 403) || (status == 401))

unfoldable pub up_of_answer : Answer ℕ → M Bool
up_of_answer (failure e) = pure false
up_of_answer (reply status) = pure (status_is_up status)

unfoldable pub wait_retries : Bool → ℕ → ℕ → ℕ
wait_retries wait max_retries sleep =
    if wait && (max_retries == 0) then 300000000000 / sleep else max_retries

module _ (env : Env) (arn : String) where
  unfoldable pub wait_for_cluster_active : ℕ → ℕ → M (Unit {0})
  wait_for_cluster_active zero sleep = raise (eks_cluster_ready_timeout arn)
  wait_for_cluster_active (suc retries) sleep = do
    r ← attempt (get_cluster_by_arn env arn)
    if cluster_is_active (cluster_or_nil r)
        then pure tt
        else (do call env (Call.sleep sleep); wait_for_cluster_active retries sleep)

  unfoldable pub head_endpoint : String → Answer (Unit {0}) → M Bool
  head_endpoint endpoint (failure e) = pure false
  head_endpoint endpoint (reply _) = do r ← attempt (call env (Call.head endpoint)); up_of_answer r

  -- A nil cluster that comes with no error is a nil dereference.
  unfoldable pub check_cluster : Answer (Option Cluster) → M Bool
  check_cluster (failure e) = pure false
  check_cluster (reply none) = crash
  check_cluster (reply (some cluster)) = if str_eq cluster.endpoint "" then pure false else (do
    client ← attempt (call env (Call.load_http_client_with_ca cluster.certificate_authority))
    head_endpoint cluster.endpoint client)

  unfoldable pub check_kubernetes_api_server : M Bool
  check_kubernetes_api_server = do r ← attempt (get_cluster_by_arn env arn); check_cluster r

  unfoldable pub wait_for_kubernetes_api_server : ℕ → ℕ → M (Unit {0})
  wait_for_kubernetes_api_server zero sleep = raise (eks_cluster_ready_timeout arn)
  wait_for_kubernetes_api_server (suc retries) sleep = do
    available ← check_kubernetes_api_server
    if available
        then pure tt
        else (do call env (Call.sleep sleep); wait_for_kubernetes_api_server retries sleep)

  -- The first half of VerifyCluster, after the first look-up.
  unfoldable pub ensure_active : Bool → ℕ → ℕ → Option Error → M (Unit {0})
  ensure_active wait retries sleep none = pure tt
  ensure_active wait retries sleep (some e) =
      if wait then wait_for_cluster_active retries sleep else raise e

  -- The second half, after the first check.
  unfoldable pub ensure_available : Bool → ℕ → ℕ → Bool → M (Unit {0})
  ensure_available wait retries sleep true = pure tt
  ensure_available wait retries sleep false =
      if wait
      then wait_for_kubernetes_api_server retries sleep
      else raise (eks_cluster_not_ready arn)

  unfoldable pub verify_cluster : Bool → ℕ → ℕ → M (Unit {0})
  verify_cluster wait max_retries sleep = do
    r ← attempt (get_cluster_by_arn env arn)
    ensure_active wait (wait_retries wait max_retries sleep) sleep (look_up_error arn r)
    available ← check_kubernetes_api_server
    ensure_available wait (wait_retries wait max_retries sleep) sleep available

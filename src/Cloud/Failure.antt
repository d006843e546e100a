-- ===== src/Cloud/Failure.antt =====
-- The errors of the program (eks/errors.go, kubectl/errors.go, tls/errors.go,
-- commonerrors/commonerrors.go). errors.WithStackTrace adds a trace to an error and passes nil on;
-- an error is taken here without its trace.
use kubergrunt.Prelude.{ℕ, String, List, [], ◌∷◌}
use kubergrunt.Cloud.Types.{Text, AuthScheme}

mutual
  pub data Error : Type 0 where
    -- An error of a library or a service, by its code.
    external : String → Error
    lookup_error : String → String → String → Error
    could_not_meet_asg_capacity : String → String → Error
    node_ready_timeout : ℕ → Error
    load_balancer_not_ready : String → Error
    load_balancer_name_format : Text → Error
    unknown_aws_load_balancer_type : String → String → Error
    could_not_find_load_balancer : Text → Error
    impossible : String → Error
    unsupported_eks_version : String → Error
    unexpected_configuration : String → ℕ → Error
    no_eksbuild_tags : Text → Text → Text → Error
    auth_scheme_not_supported : AuthScheme → Error
    eks_cluster_not_ready : String → Error
    eks_cluster_ready_timeout : String → Error
    required_flag : String → Error
    exactly_one_asg : String → Error
    required_args : String → Error
    unknown_private_key_algorithm : String → Error
    unknown_ecdsa_curve : String → Error
    rsa_bits_too_low : ℕ → Error
    network_interface_detached_timeout : String → Error
    network_interface_deleted_timeout : String → Error
    -- retry.FatalError and retry.MaxRetriesExceeded of go-commons
    retry_fatal : Error → Error
    max_retries_exceeded : Error
    -- MultipleTerminateInstanceErrors and multierror.Error
    multiple : Errors → Error

  pub data Errors : Type 0 where
    nil : Errors
    cons : Error → Errors → Errors

abbrev pub of_list : List Error → Errors
of_list [] = nil
of_list (e ∷ es) = cons e (of_list es)

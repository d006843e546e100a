-- ===== src/Eks/CorednsPermissions/Grants.antt =====
-- What CoreDNS may do once its permissions have been looked after (eks/sync.go,
-- updateCorednsPermissionsFor183Compatibility).
use kubergrunt.Prelude.{Bool, true, List, [], ◌∷◌, ◌++◌, ◌≡◌, ◌⊎◌}
use kubergrunt.Cloud.Types.{PolicyRule}
use kubergrunt.Cloud.Request.{Call, History}
use kubergrunt.Cloud.Monad.{Outcome, ok}
use kubergrunt.Eks.CorednsPermissions.{coredns_cluster_role_name}
use kubergrunt.Eks.CorednsPermissions.Flags.{BothGranted}

-- One of the two verbs is not granted, and the only request, which succeeded if the code did, updated
-- the role to the same rules and one more, which grant both.
abbrev pub Completed : List PolicyRule → History → Outcome (Unit {0}) → History → Type 0
Completed rules before r h =
    (rule : PolicyRule) × (s : Bool) × ¬ BothGranted rules
    × BothGranted (rules ++ (rule ∷ []))
    × (r ≡ ok tt → s ≡ true)
    × (h ≡ (
        record {
          request = Call.update_cluster_role coredns_cluster_role_name (rules ++ (rule ∷ []));
          succeeded = s;
        }
        ∷ before))

-- No update where both verbs are granted, and the completed rules where one is not.
abbrev pub Settled : List PolicyRule → History → Outcome (Unit {0}) × History → Type 0
Settled rules before (r, after) =
    (BothGranted rules × (r ≡ ok tt) × (after ≡ before)) ⊎ Completed rules before r after

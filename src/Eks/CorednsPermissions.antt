-- ===== src/Eks/CorednsPermissions.antt =====
-- eks/sync.go: the permissions of CoreDNS on endpoint slices.
pub mod Flags
pub mod Grants
use kubergrunt.Prelude.{
  String, Bool, true, false, not, List, [], ◌∷◌, ◌++◌, ◌&&◌, ◌||◌, if◌then◌else◌,
}
use kubergrunt.Cloud.Types.{PolicyRule}
use kubergrunt.Cloud.Request.{Call, Env}
use kubergrunt.Cloud.Monad.{M, pure, ◌>>=◌, call}

abbrev pub coredns_cluster_role_name : String
coredns_cluster_role_name = "system:coredns"

abbrev pub endpointslices_api_group : String
endpointslices_api_group = "discovery.k8s.io"

abbrev pub endpointslices_resource : String
endpointslices_resource = "endpointslices"

-- rbacv1.ResourceAll and rbacv1.VerbAll
abbrev pub resource_all : String
resource_all = "*"

abbrev pub verb_all : String
verb_all = "*"

-- The rule that adds the permissions that are missing.
unfoldable pub new_rule : Bool → Bool → PolicyRule
new_rule has_list has_watch = record {
  api_groups = endpointslices_api_group ∷ [];
  resources = endpointslices_resource ∷ [];
  verbs = (if has_list then [] else "list" ∷ []) ++ (if has_watch then [] else "watch" ∷ []);
  resource_names = [];
  non_resource_urls = [];
}

module _ (env : Env) where
  -- Is the rule for endpoint slices, and for the verb?
  unfoldable pub rule_grants : PolicyRule → String → Bool
  rule_grants rule verb =
      (env.list_contains_element rule.api_groups endpointslices_api_group
        && (env.list_contains_element rule.resources endpointslices_resource
            || env.list_contains_element rule.resources resource_all))
      && (env.list_contains_element rule.verbs verb
          || env.list_contains_element rule.verbs verb_all)

  -- The loop of hasEndpointSlicesPermissions, with its two flags.
  unfoldable pub scan_rules : List PolicyRule → Bool → Bool → Bool × Bool
  scan_rules [] has_list has_watch = (has_list, has_watch)
  scan_rules (rule ∷ rules) has_list has_watch =
      scan_rules rules (if rule_grants rule "list" then true else has_list)
        (if rule_grants rule "watch" then true else has_watch)

  unfoldable pub has_endpoint_slices_permissions : List PolicyRule → Bool × Bool
  has_endpoint_slices_permissions rules = scan_rules rules false false

  -- What is done with the rules of the role.
  unfoldable pub update_rules : List PolicyRule → Bool × Bool → M (Unit {0})
  update_rules rules (has_list, has_watch) =
      if has_list && has_watch
      then pure tt
      else call env (
          Call.update_cluster_role coredns_cluster_role_name
            (rules ++ (new_rule has_list has_watch ∷ [])))

  unfoldable pub update_coredns_permissions_for_183_compatibility : M (Unit {0})
  update_coredns_permissions_for_183_compatibility = do
    rules ← call env (Call.get_cluster_role coredns_cluster_role_name)
    update_rules rules (has_endpoint_slices_permissions rules)

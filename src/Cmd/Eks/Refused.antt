-- ===== src/Cmd/Eks/Refused.antt =====
-- Commands that are refused before they start (cmd/eks.go).
use kubergrunt.Prelude.{String, str_eq, List, [], ◌∷◌, ◌≡◌, ◌≢◌, refl, length}
use kubergrunt.Cloud.Failure.{Error}
use kubergrunt.Cloud.Request.{Call, History, Env}
use kubergrunt.Cloud.Retry.{Retry}
use kubergrunt.Cloud.Monad.{Outcome, ok, err, panic, hangs, M, pure, raise, ◌>>=◌}
use kubergrunt.Cloud.Only.{
  Since, Only, Only-pure, Only-raise, Only-lift, Only-if, Only-bind, Only-call,
}
use kubergrunt.Cloud.Yields.{IfOk, Yields, Yields-raise, Yields-bind, Yields-bind_at, Yields-ok}
use kubergrunt.Kubectl.Options.{eks_options}
use kubergrunt.Cmd.Cli.{Cli}
use kubergrunt.Cmd.Common.{
  kube_config_path_from_home_dir, use_direct, use_eks_cluster, parse_without_server, parse_direct,
  config_path, parse_config, parse_kubectl_options,
}
use kubergrunt.Cmd.Eks.{
  cluster_asg_name_flag_name, only_group, some_groups, parse_roll_out, deploy_command,
  drain_command,
}

-- The look-up of the home directory.
abbrev pub OfHome : Call → Type 0
OfHome Call.home_dir = Unit
OfHome _ = ⊥

-- No value, and no request but for the home directory.
record Refuses {A : Type 0} (m : M A) : Type 0 where
  never : Yields m (λ _ _. ⊥)
  only : Only OfHome m

Refuses-raise : {A : Type 0} (e : Error) → Refuses (raise {A = A} e)
Refuses-raise e = record { never = Yields-raise e; only = Only-raise e }

Refuses-after :
    {A B : Type 0} (m : M A) (f : A → M B)
    → Only OfHome m
    → ((a : A) → Refuses (f a))
    → Refuses (m >>= f)
Refuses-after m f o rest = record {
  never = Yields-bind m f (λ a. (rest a).never);
  only = Only-bind m f o (λ a. (rest a).only);
}

before-Since :
    {A B : Type 0} (f : A → M B) (h : History) (r : Outcome A) (h' : History)
    → IfOk (λ _ _. ⊥) r h'
    → Since OfHome h h'
    → let out = elim r as (λ _. Outcome B × History) [
      | ok a ↦ f a h'
      | err e ↦ (err e, h')
      | panic ↦ (panic, h')
      | hangs ↦ (hangs, h')
    ] in
      Since OfHome h out.1
before-Since f h (ok a) h' never s = absurd never
before-Since f h (err e) h' never s = s
before-Since f h panic h' never s = s
before-Since f h hangs h' never s = s

-- What follows is not reached.
Refuses-before : {A B : Type 0} (m : M A) (f : A → M B) → Refuses m → Refuses (m >>= f)
unfolding ◌>>=◌
Refuses-before m f r = record {
  never = Yields-bind_at m f r.never (λ a h never. absurd never);
  only = record { at = λ h. before-Since f h (m h).0 (m h).1 (r.never.at h) (r.only.at h) };
}

group-Refuses :
    {B : Type 0} (asg_names : List String) (f : String → M B)
    → length asg_names ≢ 1
    → Refuses (only_group asg_names >>= f)
unfolding only_group
group-Refuses [] f several = Refuses-before _ f (Refuses-raise _)
group-Refuses (asg_name ∷ []) f several = absurd (several refl)
group-Refuses (asg_name ∷ other ∷ asg_names) f several = Refuses-before _ f (Refuses-raise _)

no_groups-Refuses : {B : Type 0} (f : List String → M B) → Refuses (some_groups [] >>= f)
unfolding some_groups
no_groups-Refuses f = Refuses-before _ f (Refuses-raise _)

refused :
    {A : Type 0} (m : M A) (h : History)
    → Refuses m
    → ((a : A) → (m h).0 ≢ ok a) × Since OfHome h (m h).1
refused m h r = (λ a e. Yields-ok m h r.never e, r.only.at h)

module _ (env : Env) (cli : Cli) where
  path-Only : (path : String) → Only OfHome (config_path env cli path)
  unfolding config_path kube_config_path_from_home_dir
  path-Only path =
      Only-if (str_eq path "") (kube_config_path_from_home_dir env) (pure path)
        (λ _. Only-bind _ _ (Only-call env Call.home_dir tt) (λ home. Only-pure _))
        (λ _. Only-pure path)

  direct-Only : Only OfHome (parse_direct env cli)
  unfolding parse_direct
  direct-Only =
      Only-bind _ _ (Only-lift _) (λ ca. Only-bind _ _ (Only-lift _) (λ token. Only-pure _))

  config-Only : Only OfHome (parse_config env cli)
  unfolding parse_config
  config-Only = Only-bind _ _ (path-Only _) (λ path. Only-pure _)

  options-Only : Only OfHome (parse_kubectl_options env cli)
  unfolding parse_kubectl_options parse_without_server
  options-Only =
      Only-if (use_direct cli) (parse_direct env cli) (parse_without_server env cli)
        (λ _. direct-Only)
        (λ _.
          Only-if (use_eks_cluster cli) (pure (eks_options _)) (parse_config env cli)
            (λ _. Only-pure _) (λ _. config-Only))

  roll_out-Refuses :
      length (cli.string_slice cluster_asg_name_flag_name) ≢ 1 → Refuses (parse_roll_out env cli)
  unfolding parse_roll_out
  roll_out-Refuses several =
      Refuses-after _ _ options-Only
        (λ options. Refuses-after _ _ (Only-lift _) (λ region. group-Refuses _ _ several))

  drain-Refuses : cli.string_slice cluster_asg_name_flag_name ≡ [] → Refuses (drain_command env cli)
  unfolding drain_command
  drain-Refuses none =
      Refuses-after _ _ options-Only
        (λ options. Refuses-after _ _ (Only-lift _) (λ region. rw none (no_groups-Refuses _)))

  -- A drain of no group never returns without an error, and makes no request but the look-up of the
  -- home directory: it looks no group up, and cordons and drains no node.
  pub drain_command-refuses :
      (h : History)
      → cli.string_slice cluster_asg_name_flag_name ≡ []
      → ((drain_command env cli h).0 ≢ ok tt) × Since OfHome h (drain_command env cli h).1
  drain_command-refuses h none =
      let (never, only) = refused _ h (drain-Refuses none) in (never tt, only)

module _ (env : Env) (lib : Retry) (cli : Cli) where
  deploy-Refuses :
      length (cli.string_slice cluster_asg_name_flag_name) ≢ 1
      → Refuses (deploy_command env lib cli)
  unfolding deploy_command
  deploy-Refuses several = Refuses-before _ _ (roll_out-Refuses env cli several)

  -- A deployment of no group or of several never returns without an error, and makes no request but
  -- the look-up of the home directory: it neither reads a state file nor changes a group.
  pub deploy_command-refuses :
      (h : History)
      → length (cli.string_slice cluster_asg_name_flag_name) ≢ 1
      → ((deploy_command env lib cli h).0 ≢ ok tt) × Since OfHome h (deploy_command env lib cli h).1
  deploy_command-refuses h several =
      let (never, only) = refused _ h (deploy-Refuses several) in (never tt, only)

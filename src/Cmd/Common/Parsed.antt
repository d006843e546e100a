-- ===== src/Cmd/Common/Parsed.antt =====
-- Which options parseKubectlOptions gives, by the flags (cmd/common.go).
use kubergrunt.Prelude.{
  String, str_eq, eq_iff, not, true, false, Bool-cases, [], ◌∷◌, ◌≡◌, ◌≢◌, refl, ◌⊎◌, inl, inr,
}
use kubergrunt.Strings.Empty.{empty_of_test, nonempty_of_test, nonempty_of_false}
use kubergrunt.Cloud.Types.{config_based, direct_auth, eks_cluster_based, KubectlOptions}
use kubergrunt.Cloud.Request.{Call, reply, History, Env}
use kubergrunt.Cloud.Monad.{ok, pure, lift}
use kubergrunt.Cloud.Yields.{
  Yields, Yields-pure, Yields-lift, Yields-bind_at, Yields-call, Yields-if, Yields-ok,
}
use kubergrunt.Cloud.Answered.{Answered}
use kubergrunt.Kubectl.Options.{auth_scheme, eks_options}
use kubergrunt.Cmd.Cli.{Cli, CliLaws}
use kubergrunt.Cmd.Common.{
  kubeconfig_flag_name, kubectl_context_name_flag_name, kubectl_server_flag_name,
  kubectl_ca_flag_name, kubectl_token_flag_name, kubectl_eks_cluster_arn_flag_name, direct_options,
  config_options, kube_config_path_from_home_dir, parse_direct, config_path, parse_config,
  parse_without_server, parse_kubectl_options,
}

-- A required flag that was accepted is set.
pub required-set :
    (cli : Cli)
    → CliLaws cli
    → (name value : String) → cli.string_flag_required name ≡ reply value
    → (cli.string_flag name ≢ "") × (value ≡ cli.string_flag name)
required-set cli laws name value e = elim (Bool-cases (not (str_eq (cli.string_flag name) ""))) [
  | inl set ↦
      let full = nonempty_of_test (cli.string_flag name) set in
      let same = laws.given name full in (full, cc)
  | inr unset ↦
      let (x, failed) = laws.missing name (empty_of_test (cli.string_flag name) unset) in absurd cc
]

-- The three ways to authenticate, and the flags that choose between them.
abbrev pub Direct : Cli → KubectlOptions → Type 0
Direct cli options =
    (auth_scheme options ≡ direct_auth)
    × (cli.string_flag kubectl_server_flag_name ≢ "")
    × (options.server ≡ cli.string_flag kubectl_server_flag_name)
    × (options.base64_pem_certificate_authority ≢ "")
    × (options.base64_pem_certificate_authority ≡ cli.string_flag kubectl_ca_flag_name)
    × (options.bearer_token ≢ "")
    × (options.bearer_token ≡ cli.string_flag kubectl_token_flag_name)

abbrev pub OfCluster : Cli → KubectlOptions → Type 0
OfCluster cli options =
    (auth_scheme options ≡ eks_cluster_based)
    × (cli.string_flag kubectl_server_flag_name ≡ "")
    × (options.eks_cluster_arn ≢ "")
    × (options.eks_cluster_arn ≡ cli.string_flag kubectl_eks_cluster_arn_flag_name)

-- The path of the kubeconfig is the flag's, or the default one below the home directory.
abbrev pub PathOf : Env → Cli → String → History → Type 0
PathOf env cli path h =
    ((path ≢ "") × (path ≡ cli.string_flag kubeconfig_flag_name))
    ⊎ ((cli.string_flag kubeconfig_flag_name ≡ "")
        × (home : String) × (path ≡ env.path_join (home ∷ ".kube" ∷ "config" ∷ []))
        × Answered env Call.home_dir (reply home) h)

abbrev pub OfConfig : Env → Cli → KubectlOptions → History → Type 0
OfConfig env cli options h =
    (auth_scheme options ≡ config_based)
    × (cli.string_flag kubectl_server_flag_name ≡ "")
    × (cli.string_flag kubectl_eks_cluster_arn_flag_name ≡ "")
    × (options.context_name ≡ cli.string_flag kubectl_context_name_flag_name)
    × PathOf env cli options.config_path h

abbrev pub Parsed : Env → Cli → KubectlOptions → History → Type 0
Parsed env cli options h = Direct cli options ⊎ (OfCluster cli options ⊎ OfConfig env cli options h)

scheme-direct :
    (server ca token : String)
    → not (str_eq server "") ≡ true
    → auth_scheme (direct_options server ca token) ≡ direct_auth
unfolding auth_scheme direct_options
scheme-direct server ca token set = rw set refl

scheme-eks :
    (arn : String) → not (str_eq arn "") ≡ true → auth_scheme (eks_options arn) ≡ eks_cluster_based
unfolding auth_scheme eks_options
scheme-eks arn set = rw set refl

scheme-config :
    (context_name path : String) → auth_scheme (config_options context_name path) ≡ config_based
unfolding auth_scheme config_options
scheme-config context_name path = refl

module _ (env : Env) (cli : Cli) (laws : CliLaws cli) where
  direct-Yields :
      not (str_eq (cli.string_flag kubectl_server_flag_name) "") ≡ true
      → Yields (parse_direct env cli) (λ options h. Parsed env cli options h)
  unfolding parse_direct direct_options pure
  direct-Yields set =
      Yields-bind_at _ _
        (Yields-lift {Q = λ _ _. cli.string_flag kubectl_ca_flag_name ≢ ""} _
          (λ ca e h. (required-set cli laws kubectl_ca_flag_name ca e).0))
        (λ ca h ca_set.
          (Yields-bind_at (lift (cli.string_flag_required kubectl_token_flag_name)) _
              (Yields-lift {Q = λ _ _. cli.string_flag kubectl_token_flag_name ≢ ""} _
                (λ token e h. (required-set cli laws kubectl_token_flag_name token e).0))
              (λ token h token_set. inl (
                scheme-direct _ _ _ set,
                nonempty_of_test _ set,
                refl,
                ca_set,
                refl,
                token_set,
                refl,
              ))).at
            h)

  path-Yields : Yields (config_path env cli (cli.string_flag kubeconfig_flag_name)) (PathOf env cli)
  unfolding config_path kube_config_path_from_home_dir pure
  path-Yields =
      Yields-if _ _ _
        (λ unset.
          Yields-bind_at _ _
            (Yields-call env Call.home_dir {Q = λ home h. Answered env Call.home_dir (reply home) h}
              (λ h home e. inl (refl, e)))
            (λ home h found. inr ((eq_iff _ "").0 unset, home, refl, found)))
        (λ set. Yields-pure _ (λ h. inl (nonempty_of_false _ set, refl)))

  config-Yields :
      not (str_eq (cli.string_flag kubectl_server_flag_name) "") ≡ false
      → not (str_eq (cli.string_flag kubectl_eks_cluster_arn_flag_name) "") ≡ false
      → Yields (parse_config env cli) (λ options h. Parsed env cli options h)
  unfolding parse_config config_options pure
  config-Yields no_server no_arn = Yields-bind_at _ _ path-Yields (λ path h of.
      inr (inr (scheme-config _ path, empty_of_test _ no_server, empty_of_test _ no_arn, refl, of)))

  parse-Yields : Yields (parse_kubectl_options env cli) (λ options h. Parsed env cli options h)
  unfolding parse_kubectl_options parse_without_server eks_options
  parse-Yields = Yields-if _ _ _ direct-Yields (λ no_server.
      Yields-if _ _ _
        (λ set. Yields-pure _ (λ h.
          inr (inl (scheme-eks _ set, empty_of_test _ no_server, nonempty_of_test _ set, refl))))
        (config-Yields no_server))

  -- When the flags are parsed without an error, the options are those of one of three ways to
  -- authenticate, which is the scheme that they are used with. With a server it is the direct one,
  -- with the server, a certificate authority and a token, each of them given and not empty. Without
  -- a server, and with the ARN of a cluster, it is that of the cluster. Without either it is the
  -- kubeconfig of the given path, or of the default path below the home directory that the last
  -- request has found, and the given context. This holds where a required flag is accepted just when
  -- it is not empty, and with its value.
  pub parse_kubectl_options-Parsed :
      (h : History) (options : KubectlOptions)
      → (parse_kubectl_options env cli h).0 ≡ ok options
      → Parsed env cli options (parse_kubectl_options env cli h).1
  parse_kubectl_options-Parsed h options e =
      Yields-ok {Q = λ options h. Parsed env cli options h} _ h parse-Yields e

-- ===== src/Eks/Sync/Versions.antt =====
-- eks/sync.go: the versions of the core components for each version of Kubernetes, and the
-- repository of their images.
use kubergrunt.Prelude.{String, List, [], ◌∷◌, ◌++◌, Option, none, some}
use kubergrunt.Strings.{lookup}
use kubergrunt.Strings.Bytes.{bytes}
use kubergrunt.Cloud.Types.{Text}

abbrev pub kube_proxy_repo_path : Text
kube_proxy_repo_path = bytes "eks/kube-proxy"

abbrev pub core_dns_repo_path : Text
core_dns_repo_path = bytes "eks/coredns"

abbrev pub supported_versions : List String
supported_versions =
    "1.34" ∷ "1.33" ∷ "1.32" ∷ "1.31" ∷ "1.30" ∷ "1.29" ∷ "1.28" ∷ "1.27" ∷ "1.26" ∷ "1.25" ∷ []

abbrev pub core_dns_version_lookup_table : List (String × String)
core_dns_version_lookup_table =
    ("1.34", "1.12.4-eksbuild")
    ∷ ("1.33", "1.12.2-eksbuild")
    ∷ ("1.32", "1.11.4-eksbuild")
    ∷ ("1.31", "1.11.4-eksbuild")
    ∷ ("1.30", "1.11.4-eksbuild")
    ∷ ("1.29", "1.11.4-eksbuild")
    ∷ ("1.28", "1.10.1-eksbuild")
    ∷ ("1.27", "1.10.1-eksbuild")
    ∷ ("1.26", "1.9.3-eksbuild")
    ∷ []

abbrev pub kube_proxy_version_lookup_table : List (String × String)
kube_proxy_version_lookup_table =
    ("1.34", "1.34.1-eksbuild")
    ∷ ("1.33", "1.33.0-minimal-eksbuild")
    ∷ ("1.32", "1.32.6-minimal-eksbuild")
    ∷ ("1.31", "1.31.10-minimal-eksbuild")
    ∷ ("1.30", "1.30.14-minimal-eksbuild")
    ∷ ("1.29", "1.29.15-minimal-eksbuild")
    ∷ ("1.28", "1.28.15-minimal-eksbuild")
    ∷ ("1.27", "1.27.16-minimal-eksbuild")
    ∷ ("1.26", "1.26.15-minimal-eksbuild")
    ∷ []

abbrev pub amazon_vpc_cni_version_lookup_table : List (String × String)
amazon_vpc_cni_version_lookup_table =
    ("1.34", "1.20.4")
    ∷ ("1.33", "1.19.6")
    ∷ ("1.32", "1.19.6")
    ∷ ("1.31", "1.19.6")
    ∷ ("1.30", "1.19.6")
    ∷ ("1.29", "1.19.6")
    ∷ ("1.28", "1.19.6")
    ∷ ("1.27", "1.19.6")
    ∷ ("1.26", "1.19.6")
    ∷ []

abbrev pub default_container_image_account : String
default_container_image_account = "602401143452"

abbrev pub container_image_account_lookup_table : List (String × String)
container_image_account_lookup_table =
    ("af-south-1", "877085696533")
    ∷ ("ap-east-1", "800184023465")
    ∷ ("ap-southeast-3", "296578399912")
    ∷ ("ap-south-2", "900889452093")
    ∷ ("ap-southeast-4", "491585149902")
    ∷ ("ap-southeast-7", "121268973566")
    ∷ ("cn-north-1", "918309763551")
    ∷ ("cn-northwest-1", "961992271922")
    ∷ ("eu-south-1", "590381155156")
    ∷ ("eu-south-2", "455263428931")
    ∷ ("eu-central-2", "900612956339")
    ∷ ("il-central-1", "066635153087")
    ∷ ("me-south-1", "558608220178")
    ∷ ("me-central-1", "759879836304")
    ∷ ("mx-central-1", "730335286997")
    ∷ ("ca-west-1", "761377655185")
    ∷ ("us-gov-east-1", "151742754352")
    ∷ ("us-gov-west-1", "013241004608")
    ∷ []

-- `table[key]`, the empty string where the key is missing.
unfoldable pub value_or_empty : Option String → String
value_or_empty none = ""
value_or_empty (some value) = value

unfoldable pub value_of : List (String × String) → String → String
value_of table key = value_or_empty (lookup key table)

unfoldable pub account_or_default : Option String → String
account_or_default none = default_container_image_account
account_or_default (some id) = id

unfoldable pub get_repo_domain : String → Text
get_repo_domain region =
    bytes (account_or_default (lookup region container_image_account_lookup_table))
    ++ (bytes ".dkr.ecr." ++ (bytes region ++ bytes ".amazonaws.com"))

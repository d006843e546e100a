-- ===== src/Eks/EksBuild.antt =====
-- findLatestEKSBuild of eks/sync.go, and TagExistsInRepo of eksawshelper/ecr.go.
pub mod Latest
pub mod Tagged
use kubergrunt.Prelude.{
  ℕ, zero, suc, ◌+◌, ◌/◌, ◌%◌, String, Bool, true, false, not, Option, none, some, List, [], ◌∷◌,
  ◌++◌, ◌==◌, ◌&&◌, ◌||◌, ltb, leb, if◌then◌else◌,
}
use kubergrunt.Strings.Bytes.{contains}
use kubergrunt.Cloud.Types.{Text}
use kubergrunt.Cloud.Failure.{external, no_eksbuild_tags}
use kubergrunt.Cloud.Request.{Call, Env}
use kubergrunt.Cloud.Monad.{M, pure, raise, ◌>>=◌, call}

-- Largest eksbuild tag that is tried.
abbrev pub max_eks_build : ℕ
max_eks_build = 100

abbrev pub max_consecutive_misses : ℕ
max_consecutive_misses = 5

-- "eksbuild"
abbrev pub eksbuild : Text
eksbuild = b'e' ∷ b'k' ∷ b's' ∷ b'b' ∷ b'u' ∷ b'i' ∷ b'l' ∷ b'd' ∷ []

-- The decimal digits of a number below 1000.
unfoldable pub decimal : ℕ → Text
decimal n =
    (if ltb n 100 then [] else (b'0' + n / 100) ∷ [])
    ++ (if ltb n 10 then [] else (b'0' + (n / 10) % 10) ∷ [])
    ++ ((b'0' + n % 10) ∷ [])

-- fmt.Sprintf("%s.%d", tagBase, build)
unfoldable pub version_of : Text → ℕ → Text
version_of tag_base build = tag_base ++ (b'.' ∷ decimal build)

unfoldable pub is_some : Option Text → Bool
is_some none = false
is_some (some _) = true

module _ (env : Env) where
  -- What is made of the status of the reply.
  unfoldable pub tag_exists_of_status : ℕ → M Bool
  tag_exists_of_status status =
      if status == 200
      then pure true
      else if status == 404
      then pure false
      else raise (external "ECRManifestFetchError")

  unfoldable pub tag_exists_in_repo : String → Text → Text → Text → M Bool
  tag_exists_in_repo token repo_domain repo_path tag = do
    status ← call env (Call.get_manifest token repo_domain repo_path tag)
    tag_exists_of_status status

module _ (env : Env) (token : String) (repo_domain repo_path tag_base : Text) where
  -- The loop, with the trials that are left, the number to try, the latest tag that was found, and
  -- the misses since then.
  unfoldable pub search_builds : ℕ → ℕ → Option Text → ℕ → M (Option Text)
  search_builds zero build existing_tag misses = pure existing_tag
  search_builds (suc trials) build existing_tag misses = do
    tag_exists ←
        tag_exists_in_repo env token repo_domain repo_path (b'v' ∷ version_of tag_base build)
    if tag_exists
        then search_builds trials (build + 1) (some (version_of tag_base build)) 0
        else if leb max_consecutive_misses (misses + 1) && is_some existing_tag
        then pure existing_tag
        else search_builds trials (build + 1) existing_tag (misses + 1)

  unfoldable pub found_tag : Option Text → M Text
  found_tag none = raise (no_eksbuild_tags tag_base repo_domain repo_path)
  found_tag (some tag) = pure tag

  unfoldable pub find_latest_eks_build : M Text
  find_latest_eks_build =
      if not (contains tag_base eksbuild)
      then pure tag_base
      else search_builds max_eks_build 1 none 0 >>= found_tag

-- ===== src/Tests/Images.antt =====
-- The theorem on the search for an image tag, applied to a repository with two builds (eks/sync.go).
use kubergrunt.Prelude.{ℕ, Bool, [], ◌∷◌, ◌++◌, refl}
use kubergrunt.Cloud.Monad.{pure, call, ◌>>=◌}
use kubergrunt.Eks.EksBuild.{
  search_builds, tag_exists_in_repo, tag_exists_of_status, decimal, is_some, found_tag, version_of,
  find_latest_eks_build,
}
use kubergrunt.Strings.Bytes.{contains}
use kubergrunt.Eks.EksBuild.Latest.{Tags, LatestOf, find_latest_eks_build-LatestOf}
use kubergrunt.Tests.World.{world, build_base, has_tag}

abbrev known : ℕ → Bool
known build = has_tag (b'v' ∷ version_of build_base build)

world-Tags : Tags world "token" [] [] build_base known
world-Tags = record { status = λ h build. refl }

find_latest_eks_build-LatestOf_example :
    LatestOf known build_base (build_base ++ (b'.' ∷ b'4' ∷ []))
unfolding contains find_latest_eks_build ◌>>=◌ search_builds tag_exists_in_repo call
    tag_exists_of_status version_of decimal pure is_some found_tag
find_latest_eks_build-LatestOf_example =
    find_latest_eks_build-LatestOf world "token" [] [] build_base known world-Tags
      (build_base ++ (b'.' ∷ b'4' ∷ [])) [] refl refl

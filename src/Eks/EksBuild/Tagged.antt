-- ===== src/Eks/EksBuild/Tagged.antt =====
-- The version that findLatestEKSBuild returns has a tag in the repository (eks/sync.go).
use kubergrunt.Prelude.{
  ℕ, zero, suc, ◌+◌, String, true, false, not, Option, none, some, ◌∷◌, ◌≡◌, refl, subst, ◌⊎◌, inl,
  inr, arith, ◌==◌, ◌&&◌, leb,
}
use kubergrunt.Strings.Bytes.{contains}
use kubergrunt.Cloud.Types.{Text}
use kubergrunt.Cloud.Request.{Call, reply, History, Env}
use kubergrunt.Cloud.Quiet.{Quiet, Quiet-pure, Quiet-raise, Quiet-if, Quiet-bind, Quiet-call}
use kubergrunt.Cloud.Answered.{Answered}
use kubergrunt.Cloud.Lasting.{Lasting}
use kubergrunt.Cloud.Triple.{
  Triple, Triple-pure, Triple-raise, Triple-if, Triple-bind, Triple-call, Triple-weaken,
}
use kubergrunt.Eks.EksBuild.{
  max_eks_build, max_consecutive_misses, eksbuild, version_of, is_some, tag_exists_of_status,
  tag_exists_in_repo, search_builds, found_tag, find_latest_eks_build,
}

module _ (env : Env) (token : String) (repo_domain repo_path : Text) where
  -- The repository has answered that it has the tag of the version.
  abbrev pub HasTag : Text → History → Type 0
  HasTag version =
      Answered env (Call.get_manifest token repo_domain repo_path (b'v' ∷ version)) (reply 200)

  -- The base itself where it is no build, and else a build of it with a tag.
  abbrev pub Tagged : Text → Text → History → Type 0
  Tagged tag_base version h =
      ((contains tag_base eksbuild ≡ false) × (version ≡ tag_base))
      ⊎ ((contains tag_base eksbuild ≡ true)
          × (build : ℕ) × (version ≡ version_of tag_base build)
          × HasTag version h)

  pub Tagged-Lasting : (tag_base version : Text) → Lasting (Tagged tag_base version)
  Tagged-Lasting tag_base version e h (inl plain) = inl plain
  Tagged-Lasting tag_base version e h (inr (listed, build, same, tag)) =
      inr (listed, build, same, inr tag)

  -- What is known of the tag that was found.
  abbrev Held : Text → Option Text → History → Type 0
  Held tag_base none h = Unit
  Held tag_base (some version) h =
      (build : ℕ) × (version ≡ version_of tag_base build) × HasTag version h

  Held-Lasting : (tag_base : Text) (existing : Option Text) → Lasting (Held tag_base existing)
  Held-Lasting tag_base none e h k = tt
  Held-Lasting tag_base (some version) e h (build, same, tag) = (build, same, inr tag)

  status-Triple :
      (status : ℕ) (P : History → Type 0)
      → Triple P (tag_exists_of_status env status) (λ b h. P h × (b ≡ true → status ≡ 200))
  unfolding tag_exists_of_status
  status-Triple status P =
      Triple-if (status == 200) _ _ (λ same. Triple-pure true (λ h p. (p, λ _. ground arith)))
        (λ _.
          Triple-if (status == 404) _ _ (λ _. Triple-pure false (λ h p. (p, λ e. cc)))
            (λ _. Triple-raise _))

  tag_exists-Triple :
      (version : Text) (P : History → Type 0)
      → Lasting P
      → Triple P
          (tag_exists_in_repo env token repo_domain repo_path (b'v' ∷ version))
          (λ b h. P h × (b ≡ true → HasTag version h))
  unfolding tag_exists_in_repo
  tag_exists-Triple version P l =
      Triple-bind
        (λ status h.
          P h
          × Answered env (Call.get_manifest token repo_domain repo_path (b'v' ∷ version))
              (reply status) h)
        _ _
        (Triple-call env (Call.get_manifest token repo_domain repo_path (b'v' ∷ version))
          (λ h status p e. (l _ h p, inl (refl, e))))
        (λ status.
          Triple-weaken _ (λ h k. k)
            (λ b h (k, ok). (
              k.0,
              λ e.
                  subst
                    (λ n.
                      Answered env (Call.get_manifest token repo_domain repo_path (b'v' ∷ version))
                        (reply n) h)
                    (ok e) k.1,
            ))
            (status-Triple status _))

  search-Triple :
      (tag_base : Text) (trials build : ℕ) (existing : Option Text) (misses : ℕ)
      → Triple
          (Held tag_base existing)
          (search_builds env token repo_domain repo_path tag_base trials build existing misses)
          (Held tag_base)
  unfolding search_builds
  search-Triple tag_base zero build existing misses = Triple-pure existing (λ h k. k)
  search-Triple tag_base (suc trials) build existing misses =
      Triple-bind _ _ _
        (tag_exists-Triple (version_of tag_base build) (Held tag_base existing)
          (Held-Lasting tag_base existing))
        (λ b.
          Triple-if b _ _
            (λ found.
              Triple-weaken _ (λ h k. (build, refl, k.1 found)) (λ r h k. k)
                (search-Triple tag_base trials (build + 1) (some (version_of tag_base build)) 0))
            (λ _.
              Triple-if (leb max_consecutive_misses (misses + 1) && is_some existing) _ _
                (λ _. Triple-pure existing (λ h k. k.0))
                (λ _.
                  Triple-weaken _ (λ h k. k.0) (λ r h k. k)
                    (search-Triple tag_base trials (build + 1) existing (misses + 1)))))

  found-Triple :
      (tag_base : Text) (found : Option Text)
      → contains tag_base eksbuild ≡ true
      → Triple
          (Held tag_base found)
          (found_tag env token repo_domain repo_path tag_base found)
          (λ version h. Tagged tag_base version h)
  unfolding found_tag
  found-Triple tag_base none listed = Triple-raise _
  found-Triple tag_base (some version) listed =
      Triple-pure version (λ h (build, same, tag). inr (listed, build, same, tag))

  pub find_latest-Triple :
      (tag_base : Text)
      → Triple
          (λ _. Unit {0})
          (find_latest_eks_build env token repo_domain repo_path tag_base)
          (λ version h. Tagged tag_base version h)
  unfolding find_latest_eks_build
  find_latest-Triple tag_base =
      Triple-if (not (contains tag_base eksbuild)) _ _
        (λ plain. Triple-pure tag_base (λ h _. inl (ground arith, refl)))
        (λ not_plain.
          Triple-bind (Held tag_base) _ _ (search-Triple tag_base max_eks_build 1 none 0)
            (λ found. found-Triple tag_base found (ground arith)))

  status-Quiet : (status : ℕ) → Quiet (tag_exists_of_status env status)
  unfolding tag_exists_of_status
  status-Quiet status =
      Quiet-if (status == 200) _ _ (Quiet-pure true)
        (Quiet-if (status == 404) _ _ (Quiet-pure false) (Quiet-raise _))

  tag_exists-Quiet : (tag : Text) → Quiet (tag_exists_in_repo env token repo_domain repo_path tag)
  unfolding tag_exists_in_repo
  tag_exists-Quiet tag =
      Quiet-bind _ _ (Quiet-call env (Call.get_manifest token repo_domain repo_path tag) tt)
        status-Quiet

  search-Quiet :
      (tag_base : Text) (trials build : ℕ) (existing : Option Text) (misses : ℕ)
      → Quiet (search_builds env token repo_domain repo_path tag_base trials build existing misses)
  unfolding search_builds
  search-Quiet tag_base zero build existing misses = Quiet-pure existing
  search-Quiet tag_base (suc trials) build existing misses =
      Quiet-bind _ _ (tag_exists-Quiet _) (λ b.
        Quiet-if b _ _ (search-Quiet tag_base trials (build + 1) _ 0) (
          Quiet-if (leb max_consecutive_misses (misses + 1) && is_some existing) _ _
            (Quiet-pure existing) (search-Quiet tag_base trials (build + 1) existing (misses + 1))))

  found-Quiet :
      (tag_base : Text) (found : Option Text)
      → Quiet (found_tag env token repo_domain repo_path tag_base found)
  unfolding found_tag
  found-Quiet tag_base none = Quiet-raise _
  found-Quiet tag_base (some version) = Quiet-pure version

  pub find_latest-Quiet :
      (tag_base : Text) → Quiet (find_latest_eks_build env token repo_domain repo_path tag_base)
  unfolding find_latest_eks_build
  find_latest-Quiet tag_base =
      Quiet-if (not (contains tag_base eksbuild)) _ _ (Quiet-pure tag_base)
        (Quiet-bind _ _ (search-Quiet tag_base max_eks_build 1 none 0) (found-Quiet tag_base))

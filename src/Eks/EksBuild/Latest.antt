-- ===== src/Eks/EksBuild/Latest.antt =====
-- Which tag the search for the latest eksbuild finds (eks/sync.go, findLatestEKSBuild).
use kubergrunt.Prelude.{
  ℕ, zero, suc, ◌+◌, ◌<◌, ◌≤◌, String, Bool, true, false, Option, none, some, ◌∷◌, ◌≡◌, refl, ◌∙◌,
  sym, ◌⊎◌, inl, inr, arith, ◌&&◌, leb, if◌then◌else◌,
}
use native.Mathlib.Decide.{dec_lt}
use kubergrunt.Cloud.Types.{Text}
use kubergrunt.Cloud.Request.{Call, reply, History, Env}
use kubergrunt.Cloud.Monad.{ok}
use kubergrunt.Cloud.Yields.{
  Yields, Yields-pure, Yields-raise, Yields-if, Yields-bind_at, Yields-call, Yields-ok,
}
use kubergrunt.Eks.EksBuild.{
  max_eks_build, eksbuild, version_of, is_some, tag_exists_of_status, tag_exists_in_repo,
  search_builds, found_tag, find_latest_eks_build,
}
use kubergrunt.Strings.Bytes.{contains}

-- The repository answers for each build number whether its tag is there, at any time the same.
pub record Tags (env : Env) (token : String) (domain path base : Text) (known : ℕ → Bool)
    : Type 0 where
  pub status :
      (h : History) (build : ℕ)
      → env.respond h (Call.get_manifest token domain path (b'v' ∷ version_of base build))
        ≡ reply (if known build then 200 else 404)

-- No tag is known from after the one number to before the other.
abbrev pub NoneBetween : (ℕ → Bool) → ℕ → ℕ → Type 0
NoneBetween known n build = (m : ℕ) → n < m → m < build → known m ≡ false

-- What the loop knows of the tag that it has.
abbrev Found : (ℕ → Bool) → Text → Option Text → ℕ → ℕ → Type 0
Found known base none build misses = Unit
Found known base (some v) build misses =
    (n : ℕ) × (v ≡ version_of base n)
    × (known n ≡ true)
    × (build ≡ n + 1 + misses)
    × (0 < n)
    × NoneBetween known n build

-- The version is of a build number from 1 to 100 with a tag, and the next five numbers, as far as
-- they are at most 100, have none.
abbrev pub LatestOf : (ℕ → Bool) → Text → Text → Type 0
LatestOf known base v =
    (n : ℕ) × (v ≡ version_of base n)
    × (known n ≡ true)
    × (0 < n)
    × (n ≤ max_eks_build)
    × ((m : ℕ) → n < m → m ≤ n + 5 → m ≤ max_eks_build → known m ≡ false)

abbrev LatestIfSome : (ℕ → Bool) → Text → Option Text → Type 0
LatestIfSome known base none = Unit
LatestIfSome known base (some v) = LatestOf known base v

settled :
    (known : ℕ → Bool) (base : Text) (o : Option Text) (build misses : ℕ)
    → Found known base o build misses
    → build ≤ max_eks_build + 1
    → (5 ≤ misses) ⊎ (build ≡ max_eks_build + 1)
    → LatestIfSome known base o
settled known base none build misses f small done = tt
settled known base (some v) build misses (n, same, at_n, gap, pos, missing) small (inl far) =
    (n, same, at_n, pos, omega arith, λ m after near top. missing m after (omega arith))
settled known base (some v) build misses (n, same, at_n, gap, pos, missing) small (inr end) =
    (n, same, at_n, pos, omega arith, λ m after near top. missing m after (omega arith))

up_to : (m build : ℕ) → m < build + 1 → (m < build) ⊎ (m ≡ build)
up_to m build below = elim (dec_lt m build) [ yes less ↦ inl less | no other ↦ inr (omega arith) ]

-- A miss.
missed :
    (known : ℕ → Bool) (base : Text) (o : Option Text) (build misses : ℕ)
    → Found known base o build misses
    → known build ≡ false
    → Found known base o (build + 1) (misses + 1)
missed known base none build misses f gone = tt
missed known base (some v) build misses (n, same, at_n, gap, pos, missing) gone = (
  n,
  same,
  at_n,
  omega arith,
  pos,
  λ m after before. elim (up_to m build before) [
    | inl earlier ↦ missing m after earlier
    | inr now ↦ rw now gone
  ],
)

-- The end of the loop by the misses.
enough : (o : Option Text) (misses : ℕ) → (leb 5 (misses + 1) && is_some o) ≡ true → 5 ≤ misses + 1
enough o misses e = ground arith

none_between : (n m : ℕ) → n < m → m < n + 1 → ⊥
none_between n m after before = omega arith

module _ (env : Env) (token : String) (domain path base : Text) (known : ℕ → Bool)
    (tags : Tags env token domain path base known) where
  status-Yields :
      (b : Bool) (status : ℕ)
      → status ≡ (if b then 200 else 404)
      → Yields (tag_exists_of_status env status) (λ r _. b ≡ r)
  unfolding tag_exists_of_status
  status-Yields true status e = rw e (Yields-pure true (λ h. refl))
  status-Yields false status e = rw e (Yields-pure false (λ h. refl))

  reply_inj : {a b : ℕ} → reply a ≡ reply b → a ≡ b
  reply_inj e = cc

  tag-Yields :
      (build : ℕ)
      → Yields
          (tag_exists_in_repo env token domain path (b'v' ∷ version_of base build))
          (λ r _. known build ≡ r)
  unfolding tag_exists_in_repo
  tag-Yields build =
      Yields-bind_at _ _
        (Yields-call env (Call.get_manifest token domain path (b'v' ∷ version_of base build))
          {Q = λ status _. status ≡ (if known build then 200 else 404)}
          (λ h status e. reply_inj (sym e ∙ tags.status h build)))
        (λ status h e. (status-Yields (known build) status e).at h)

  loop-Yields :
      (trials build : ℕ) (o : Option Text) (misses : ℕ)
      → trials + build ≡ max_eks_build + 1
      → 0 < build
      → Found known base o build misses
      → Yields
          (search_builds env token domain path base trials build o misses)
          (λ found _. LatestIfSome known base found)
  unfolding search_builds
  loop-Yields zero build o misses total pos f =
      Yields-pure o (λ h. settled known base o build misses f (omega arith) (inr (omega arith)))
  loop-Yields (suc trials) build o misses total pos f =
      let hit =
        loop-Yields trials (build + 1) (some (version_of base build)) 0 (omega arith)
          (omega arith) in
      let miss = loop-Yields trials (build + 1) o (misses + 1) (omega arith) (omega arith) in
      Yields-bind_at _ _ (tag-Yields build) (λ b h here.
        (Yields-if b _ _
            (λ yes_tag. hit (
              build,
              refl,
              here ∙ yes_tag,
              omega arith,
              pos,
              λ m after before. absurd (none_between build m after before),
            ))
            (λ no_tag.
              let f' = missed known base o build misses f (here ∙ no_tag) in
              Yields-if (leb 5 (misses + 1) && is_some o) _ _
                (λ stop. Yields-pure o (λ h.
                  settled known base o (build + 1) (misses + 1) f' (omega arith)
                    (inl (enough o misses stop))))
                (λ _. miss f'))).at
          h)

  found-Yields :
      (o : Option Text)
      → LatestIfSome known base o
      → Yields (found_tag env token domain path base o) (λ v _. LatestOf known base v)
  unfolding found_tag
  found-Yields none latest = Yields-raise _
  found-Yields (some v) latest = Yields-pure v (λ h. latest)

  latest-Yields :
      contains base eksbuild ≡ true
      → Yields (find_latest_eks_build env token domain path base) (λ v _. LatestOf known base v)
  unfolding find_latest_eks_build
  latest-Yields eks = rw eks (
      Yields-bind_at _ _ (loop-Yields max_eks_build 1 none 0 refl (omega arith) tt)
        (λ o h latest. (found-Yields o latest).at h))

  -- Let the base of the tag hold "eksbuild", and let the repository answer for each build number, at
  -- any time the same, whether there is a tag. A search that finds a version finds that of a build
  -- number from 1 to 100 with a tag, and of the next five numbers, as far as they are at most 100,
  -- none has a tag.
  pub find_latest_eks_build-LatestOf :
      (v : Text) (h : History)
      → contains base eksbuild ≡ true
      → (find_latest_eks_build env token domain path base h).0 ≡ ok v
      → LatestOf known base v
  find_latest_eks_build-LatestOf v h eks =
      Yields-ok {Q = λ v _. LatestOf known base v} _ h (latest-Yields eks)

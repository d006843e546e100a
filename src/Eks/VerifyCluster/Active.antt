-- ===== src/Eks/VerifyCluster/Active.antt =====
-- That a cluster was seen active before a verification goes on (eks/cluster.go, VerifyCluster and
-- waitForClusterActive).
use kubergrunt.Prelude.{
  ℕ, zero, suc, String, eq_iff, Bool, true, false, Bool-cases, Option, none, some, ◌≡◌, refl, inl,
  inr, if◌then◌else◌,
}
use kubergrunt.Cloud.Types.{Arn, Cluster}
use kubergrunt.Cloud.Request.{Call, Answer, reply, failure, History, Env}
use kubergrunt.Cloud.Monad.{attempt, ok, err, panic, hangs, M, Outcome, call}
use kubergrunt.Cloud.Lasting.{Lasting}
use kubergrunt.Cloud.Yields.{IfOk, Yields, Yields-raise, Yields-bind}
use kubergrunt.Cloud.Failure.{Error}
use kubergrunt.Cloud.Triple.{
  Triple, Triple-pure, Triple-raise, Triple-if, Triple-bind, Triple-yields, yields-Triple,
}
use kubergrunt.EksAwsHelper.{get_cluster_by_arn}
use kubergrunt.EksAwsHelper.Found.{Described, cluster-Yields}
use kubergrunt.Eks.VerifyCluster.{
  cluster_is_active, cluster_or_nil, look_up_error, wait_for_cluster_active, ensure_active,
}

-- What a reply holds where code may fail and go on.
abbrev pub IfReply : {A : Type 0} → (A → History → Type 0) → Answer A → History → Type 0
IfReply Q (reply a) h = Q a h
IfReply Q (failure e) h = Unit

attempted-IfOk :
    {A : Type 0} (Q : A → History → Type 0) (r : Outcome A) (h : History)
    → IfOk Q r h
    → let out = elim r as (λ _. Outcome (Answer A) × History) [
      | ok a ↦ (ok (reply a), h)
      | err e ↦ (ok (failure e), h)
      | panic ↦ (panic, h)
      | hangs ↦ (hangs, h)
    ] in
      IfOk (IfReply Q) out.0 out.1
attempted-IfOk Q (ok a) h q = q
attempted-IfOk Q (err e) h q = tt
attempted-IfOk Q panic h q = tt
attempted-IfOk Q hangs h q = tt

pub Yields-attempt :
    {A : Type 0} {Q : A → History → Type 0} (m : M A) → Yields m Q → Yields (attempt m) (IfReply Q)
unfolding attempt
Yields-attempt {Q} m y = record { at = λ h. attempted-IfOk Q (m h).0 (m h).1 (y.at h) }

module _ (env : Env) (arn : String) where
  -- AWS has described the cluster of the ARN, if it described one.
  abbrev pub Seen : Option Cluster → History → Type 0
  Seen cluster h = (a : Arn) × Described env arn a cluster h

  -- AWS has described the cluster of the ARN as active.
  abbrev pub SeenActive : History → Type 0
  SeenActive h = (cluster : Cluster) × (cluster.status ≡ "ACTIVE") × Seen (some cluster) h

  pub SeenActive-Lasting : Lasting SeenActive
  SeenActive-Lasting e h (cluster, active, (a, (parsed, seen))) =
      (cluster, active, (a, (parsed, inr seen)))

  pub look_up-Yields : Yields (attempt (get_cluster_by_arn env arn)) (IfReply Seen)
  look_up-Yields = Yields-attempt _ (cluster-Yields env arn)

  judged_active :
      (r : Answer (Option Cluster)) (h : History)
      → IfReply Seen r h
      → cluster_is_active (cluster_or_nil r) ≡ true
      → SeenActive h
  unfolding cluster_is_active cluster_or_nil
  judged_active (failure e) h seen active = cc
  judged_active (reply none) h seen active = cc
  judged_active (reply (some cluster)) h seen active =
      (cluster, (eq_iff cluster.status "ACTIVE").0 active, seen)

  wait_active-Yields :
      (retries sleep : ℕ)
      → Yields (wait_for_cluster_active env arn retries sleep) (λ _ h. SeenActive h)
  unfolding wait_for_cluster_active
  wait_active-Yields zero sleep = Yields-raise _
  wait_active-Yields (suc retries) sleep =
      let again = wait_active-Yields retries sleep in
      yields-Triple _ (
        Triple-bind (IfReply Seen) _ _ (Triple-yields _ look_up-Yields) (λ r.
          Triple-if (cluster_is_active (cluster_or_nil r)) _ _
            (λ active. Triple-pure tt (λ h seen. judged_active r h seen active))
            (λ _. Triple-yields _ (Yields-bind (call env (Call.sleep sleep)) _ (λ _. again)))))

  no_error :
      {P : Type 0} (b : Bool) (e : Error) → b ≡ false → (if b then none else some e) ≡ none → P
  no_error b e inactive error = cc

  not_active :
      (r : Answer (Option Cluster)) (h : History)
      → IfReply Seen r h
      → look_up_error arn r ≡ none
      → SeenActive h
  unfolding look_up_error cluster_or_nil
  not_active (failure e) h seen error = cc
  not_active (reply cluster) h seen error = elim (Bool-cases (cluster_is_active cluster)) [
    | inl active ↦ judged_active (reply cluster) h seen (unfold cluster_or_nil in active)
    | inr inactive ↦ no_error _ _ inactive error
  ]

  ensured_active :
      (wait : Bool) (retries sleep : ℕ) (r : Answer (Option Cluster)) (o : Option Error)
      → look_up_error arn r ≡ o
      → Triple (IfReply Seen r) (ensure_active env arn wait retries sleep o) (λ _ h. SeenActive h)
  unfolding ensure_active
  ensured_active wait retries sleep r none e = Triple-pure tt (λ h seen. not_active r h seen e)
  ensured_active wait retries sleep r (some error) e =
      Triple-if wait _ _ (λ _. Triple-yields _ (wait_active-Yields retries sleep))
        (λ _. Triple-raise error)

  -- The first half of a verification that goes on has seen the cluster active.
  pub ensure_active-Triple :
      (wait : Bool) (retries sleep : ℕ) (r : Answer (Option Cluster))
      → Triple
          (IfReply Seen r)
          (ensure_active env arn wait retries sleep (look_up_error arn r))
          (λ _ h. SeenActive h)
  ensure_active-Triple wait retries sleep r =
      ensured_active wait retries sleep r (look_up_error arn r) refl

-- ===== src/Eks/VerifyCluster/Up.antt =====
-- What a verification has seen when it returns (eks/cluster.go, VerifyCluster).
use kubergrunt.Prelude.{
  ℕ, zero, suc, String, str_eq, Bool, true, false, Option, none, some, ◌∷◌, ◌≡◌, refl, ◌⊎◌, inr,
  arith,
}
use kubergrunt.Cloud.Types.{Cluster}
use kubergrunt.Cloud.Request.{Call, Answer, reply, failure, succeeds, Event, History, Env}
use kubergrunt.Cloud.Monad.{ok, M, pure, attempt, ◌>>=◌, call, outcome_of}
use kubergrunt.Cloud.Yields.{IfOk, Yields, Yields-pure, Yields-crash, Yields-ok}
use kubergrunt.Cloud.Quiet.{
  Quiet, Quiet-pure, Quiet-crash, Quiet-if, Quiet-attempt, Quiet-bind, Quiet-call,
}
use kubergrunt.Cloud.Lasting.{Lasting, Triple-lasting, Triple-both}
use kubergrunt.Cloud.Triple.{
  Triple, Triple-pure, Triple-raise, Triple-if, Triple-bind, Triple-call, Triple-weaken,
  Triple-yields, yields-Triple,
}
use kubergrunt.Kubectl.Quiet.{cluster_by_arn-Quiet}
use kubergrunt.Eks.VerifyCluster.{
  status_is_up, up_of_answer, head_endpoint, check_cluster, check_kubernetes_api_server,
  wait_for_kubernetes_api_server, ensure_available, verify_cluster, wait_retries,
}
use kubergrunt.Eks.VerifyCluster.Active.{
  IfReply, Seen, SeenActive, SeenActive-Lasting, look_up-Yields, ensure_active-Triple,
}

-- The statuses that mean that the API server is up.
abbrev pub UpStatus : ℕ → Type 0
UpStatus status = (status ≡ 200) ⊎ ((status ≡ 401) ⊎ (status ≡ 403))

status-UpStatus : (status : ℕ) → status_is_up status ≡ true → UpStatus status
unfolding status_is_up
status-UpStatus status up = ground arith

module _ (env : Env) where
  -- The last request asked the endpoint for its head, and the status says that it is up.
  pub record Answering (endpoint : String) (h : History) : Type 0 where
    pub before : History
    pub status : ℕ
    pub request : h ≡ (record { request = Call.head endpoint; succeeded = true } ∷ before)
    pub answer : env.respond before (Call.head endpoint) ≡ reply status
    pub up : UpStatus status

  -- AWS has described the cluster of the ARN, and its endpoint has answered in the last request.
  abbrev pub SeenUp : String → History → Type 0
  SeenUp arn h = (cluster : Cluster) × Seen env arn (some cluster) h × Answering cluster.endpoint h

  judged :
      (endpoint : String) (h : History) (a : Answer ℕ)
      → env.respond h (Call.head endpoint) ≡ a
      → let after : History = record { request = Call.head endpoint; succeeded = succeeds a } ∷ h in
        IfOk
          (λ b h'. b ≡ true → Answering endpoint h')
          (up_of_answer a after).0
          (up_of_answer a after).1
  unfolding up_of_answer pure
  judged endpoint h (failure e) p = λ f. cc
  judged endpoint h (reply status) p = λ up. record {
    before = h;
    status = status;
    request = refl;
    answer = p;
    up = status-UpStatus status up;
  }

  up_of_answer-Quiet : (a : Answer ℕ) → Quiet (up_of_answer a)
  unfolding up_of_answer
  up_of_answer-Quiet (failure e) = Quiet-pure _
  up_of_answer-Quiet (reply status) = Quiet-pure _

  asked :
      (endpoint : String) (h : History) (a : Answer ℕ)
      → env.respond h (Call.head endpoint) ≡ a
      → let m : M ℕ = (λ h.
        (outcome_of a, record { request = Call.head endpoint; succeeded = succeeds a } ∷ h)) in
        let out = (attempt m >>= up_of_answer) h in
        IfOk (λ b h'. b ≡ true → Answering endpoint h') out.0 out.1
  unfolding attempt ◌>>=◌
  asked endpoint h (failure e) p = judged endpoint h (failure e) p
  asked endpoint h (reply status) p = judged endpoint h (reply status) p

  head-Yields :
      (arn endpoint : String) (client : Answer (Unit {0}))
      → Yields (head_endpoint env arn endpoint client) (λ b h. b ≡ true → Answering endpoint h)
  unfolding head_endpoint call attempt up_of_answer ◌>>=◌
  head-Yields arn endpoint (failure e) = Yields-pure false (λ h f. cc)
  head-Yields arn endpoint (reply _) = record {
    at = λ h. asked endpoint h (env.respond h (Call.head endpoint)) refl;
  }

  Seen-Lasting : (arn : String) (cluster : Option Cluster) → Lasting (Seen env arn cluster)
  Seen-Lasting arn cluster e h (a, (parsed, seen)) = (a, (parsed, inr seen))

  head-Quiet :
      (arn endpoint : String) (client : Answer (Unit {0}))
      → Quiet (head_endpoint env arn endpoint client)
  unfolding head_endpoint
  head-Quiet arn endpoint (failure e) = Quiet-pure _
  head-Quiet arn endpoint (reply _) =
      Quiet-bind _ _ (Quiet-attempt _ (Quiet-call env (Call.head endpoint) tt)) up_of_answer-Quiet

  check-Triple :
      (arn : String) (r : Answer (Option Cluster))
      → Triple (IfReply (Seen env arn) r) (check_cluster env arn r) (λ b h. b ≡ true → SeenUp arn h)
  unfolding check_cluster
  check-Triple arn (failure e) = Triple-pure false (λ h seen f. cc)
  check-Triple arn (reply none) = Triple-yields _ Yields-crash
  check-Triple arn (reply (some cluster)) =
      let seen_lasts = Seen-Lasting arn (some cluster) in
      let load = call env (Call.load_http_client_with_ca cluster.certificate_authority) in
      Triple-if (str_eq cluster.endpoint "") _ _ (λ _. Triple-pure false (λ h seen f. cc))
        (λ _.
          Triple-bind (λ _ h. Seen env arn (some cluster) h) _ _
            (Triple-lasting (Seen env arn (some cluster)) (attempt load) seen_lasts (
              Quiet-attempt _
                (Quiet-call env (Call.load_http_client_with_ca cluster.certificate_authority) tt)))
            (λ client.
              Triple-weaken _ (λ h k. k) (λ b h (seen, up) f. (cluster, seen, up f))
                (Triple-both (Seen env arn (some cluster)) _ seen_lasts
                  (head-Quiet arn cluster.endpoint client)
                  (head-Yields arn cluster.endpoint client))))

  server-Yields :
      (arn : String) → Yields (check_kubernetes_api_server env arn) (λ b h. b ≡ true → SeenUp arn h)
  unfolding check_kubernetes_api_server
  server-Yields arn = yields-Triple _ (
      Triple-bind (IfReply (Seen env arn)) _ _ (Triple-yields _ (look_up-Yields env arn))
        (check-Triple arn))

  check-Quiet : (arn : String) (r : Answer (Option Cluster)) → Quiet (check_cluster env arn r)
  unfolding check_cluster
  check-Quiet arn (failure e) = Quiet-pure _
  check-Quiet arn (reply none) = Quiet-crash
  check-Quiet arn (reply (some cluster)) = Quiet-if _ _ _ (Quiet-pure _) (
      Quiet-bind _ _
        (Quiet-attempt _
          (Quiet-call env (Call.load_http_client_with_ca cluster.certificate_authority) tt))
        (head-Quiet arn cluster.endpoint))

  server-Quiet : (arn : String) → Quiet (check_kubernetes_api_server env arn)
  unfolding check_kubernetes_api_server
  server-Quiet arn =
      Quiet-bind _ _ (Quiet-attempt _ (cluster_by_arn-Quiet env arn)) (check-Quiet arn)

  -- What a verification that succeeds has seen.
  abbrev pub Verified : String → History → Type 0
  Verified arn h = SeenActive env arn h × SeenUp arn h

  -- A check of the API server, in a run that has seen the cluster active, and what comes next.
  server-Triple :
      (arn : String) (next : Bool → M (Unit {0}))
      → ((available : Bool)
          → Triple
              (λ h. SeenActive env arn h × (available ≡ true → SeenUp arn h))
              (next available)
              (λ _ h. Verified arn h))
      → Triple
          (SeenActive env arn)
          (check_kubernetes_api_server env arn >>= next)
          (λ _ h. Verified arn h)
  server-Triple arn next rest =
      Triple-bind _ (check_kubernetes_api_server env arn) next
        (Triple-both (SeenActive env arn) _ (SeenActive-Lasting env arn) (server-Quiet arn)
          (server-Yields arn))
        rest

  wait-Triple :
      (arn : String) (retries sleep : ℕ)
      → Triple
          (SeenActive env arn)
          (wait_for_kubernetes_api_server env arn retries sleep)
          (λ _ h. Verified arn h)
  unfolding wait_for_kubernetes_api_server
  wait-Triple arn zero sleep = Triple-raise _
  wait-Triple arn (suc retries) sleep =
      let again = wait-Triple arn retries sleep in
      server-Triple arn _ (λ available.
        Triple-if available _ _ (λ e. Triple-pure tt (λ h seen. (seen.0, seen.1 e)))
          (λ _.
            Triple-bind (λ _ h. SeenActive env arn h) _ _
              (Triple-call env (Call.sleep sleep) (λ h a seen e.
                let slept : Event = record { request = Call.sleep sleep; succeeded = true } in
                SeenActive-Lasting env arn slept h seen.0))
              (λ _. again)))

  ensured :
      (arn : String) (wait : Bool) (retries sleep : ℕ) (available : Bool)
      → Triple
          (λ h. SeenActive env arn h × (available ≡ true → SeenUp arn h))
          (ensure_available env arn wait retries sleep available)
          (λ _ h. Verified arn h)
  unfolding ensure_available
  ensured arn wait retries sleep true = Triple-pure tt (λ h seen. (seen.0, seen.1 refl))
  ensured arn wait retries sleep false =
      Triple-if wait _ _
        (λ _. Triple-weaken _ (λ h seen. seen.0) (λ _ h k. k) (wait-Triple arn retries sleep))
        (λ _. Triple-raise _)

  verify-Yields :
      (arn : String) (wait : Bool) (max_retries sleep : ℕ)
      → Yields (verify_cluster env arn wait max_retries sleep) (λ _ h. Verified arn h)
  unfolding verify_cluster
  verify-Yields arn wait max_retries sleep =
      let retries = wait_retries wait max_retries sleep in
      yields-Triple _ (
        Triple-bind (IfReply (Seen env arn)) _ _ (Triple-yields _ (look_up-Yields env arn)) (λ r.
          Triple-bind (λ _ h. SeenActive env arn h) _ _
            (ensure_active-Triple env arn wait retries sleep r)
            (λ _. server-Triple arn _ (ensured arn wait retries sleep))))

  -- A verification that succeeds, whether it waits or not, has seen AWS describe the cluster of the
  -- ARN with the status ACTIVE, and has seen in its last request that the endpoint with which AWS
  -- has described the cluster of the ARN answers with the status 200, 401 or 403.
  pub verify_cluster-SeenUp :
      (arn : String) (wait : Bool) (max_retries sleep : ℕ) (h : History)
      → (verify_cluster env arn wait max_retries sleep h).0 ≡ ok tt
      → Verified arn (verify_cluster env arn wait max_retries sleep h).1
  verify_cluster-SeenUp arn wait max_retries sleep h =
      Yields-ok {Q = λ _ h. Verified arn h} _ h (verify-Yields arn wait max_retries sleep)

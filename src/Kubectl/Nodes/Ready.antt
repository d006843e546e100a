-- ===== src/Kubectl/Nodes/Ready.antt =====
-- What a wait for nodes has seen when it returns (kubectl/node.go, WaitForNodesReady).
use kubergrunt.Prelude.{
  ℕ, zero, suc, String, Bool, true, false, Bool-cases, List, [], ◌∷◌, ◌≡◌, refl, inl, inr, ◌==◌,
  ◌&&◌, if◌then◌else◌, length, arith, All,
}
use kubergrunt.Cloud.Types.{Node, KubectlOptions}
use kubergrunt.Cloud.Failure.{node_ready_timeout}
use kubergrunt.Cloud.Request.{Call, reply, History, Env}
use kubergrunt.Cloud.Monad.{ok, M, pure, raise, ◌>>◌, call}
use kubergrunt.Cloud.Yields.{
  IfOk, Yields, Yields-pure, Yields-raise, Yields-bind, Yields-bind_at, Yields-call, Yields-ok,
}
use kubergrunt.Kubectl.Nodes.{
  is_node_ready, all_nodes_ready, filter_nodes_by_id, nodes_registered_and_ready, nodes_ready_loop,
  report_all_not_ready_nodes, wait_for_nodes_ready,
}

module _ (env : Env) where
  -- How many of the nodes have one of the names.
  abbrev pub registered : List Node → List String → ℕ
  registered [] node_ids = 0
  registered (node ∷ nodes) node_ids =
      let rest = registered nodes node_ids in
      if env.list_contains_element node_ids node.name then suc rest else rest

  -- Each of the nodes that has one of the names is ready.
  abbrev pub ReadyIfNamed : List String → Node → Type 0
  ReadyIfNamed node_ids node =
      env.list_contains_element node_ids node.name ≡ true → is_node_ready node ≡ true

  -- The last request listed the nodes, as many of them as there are names have one of the names, and
  -- all of those are ready.
  pub record SeenReady (node_ids : List String) (h : History) : Type 0 where
    pub before : History
    pub nodes : List Node
    pub request : h ≡ (record { request = Call.list_nodes; succeeded = true } ∷ before)
    pub answer : env.respond before Call.list_nodes ≡ reply nodes
    pub all_registered : registered nodes node_ids ≡ length node_ids
    pub all_ready : All (ReadyIfNamed node_ids) nodes

  length-filter :
      (nodes : List Node) (node_ids : List String)
      → length (filter_nodes_by_id env nodes node_ids) ≡ registered nodes node_ids
  unfolding filter_nodes_by_id
  length-filter [] node_ids = refl
  length-filter (node ∷ nodes) node_ids = ground (arith, length-filter nodes node_ids)

  first_ready :
      (b : Bool) (rest : Bool) → (if b then rest else false) ≡ true → (b ≡ true) × (rest ≡ true)
  first_ready true rest e = (refl, e)
  first_ready false rest e = cc

  filter-ready :
      (nodes : List Node) (node_ids : List String)
      → all_nodes_ready (filter_nodes_by_id env nodes node_ids) ≡ true
      → All (ReadyIfNamed node_ids) nodes
  unfolding filter_nodes_by_id all_nodes_ready
  filter-ready [] node_ids e = tt
  filter-ready (node ∷ nodes) node_ids e =
      elim (Bool-cases (env.list_contains_element node_ids node.name)) [
        | inl named ↦
            let split =
              first_ready (is_node_ready node)
                (all_nodes_ready (filter_nodes_by_id env nodes node_ids)) (rw named at e) in
            (λ _. split.0, filter-ready nodes node_ids split.1)
        | inr other ↦ (λ named. cc, filter-ready nodes node_ids (rw other at e))
      ]

  both : (a b : ℕ) (c : Bool) → ((a == b) && c) ≡ true → (a ≡ b) × (c ≡ true)
  both a b c e = (ground arith, ground arith)

  -- What a true test says of the nodes.
  test-SeenReady :
      (nodes : List Node) (node_ids : List String)
      → nodes_registered_and_ready env nodes node_ids ≡ true
      → (registered nodes node_ids ≡ length node_ids) × All (ReadyIfNamed node_ids) nodes
  unfolding nodes_registered_and_ready
  test-SeenReady nodes node_ids e =
      let parts =
        both (length (filter_nodes_by_id env nodes node_ids)) (length node_ids)
          (all_nodes_ready (filter_nodes_by_id env nodes node_ids)) e in
      (rw (← length-filter nodes node_ids) parts.0, filter-ready nodes node_ids parts.1)

  -- A loop that ends with true has seen the nodes ready.
  loop-Yields :
      (node_ids : List String) (retries sleep : ℕ)
      → Yields
          (nodes_ready_loop env node_ids retries sleep)
          (λ b h. b ≡ true → SeenReady node_ids h)
  unfolding nodes_ready_loop pure
  loop-Yields node_ids zero sleep = Yields-pure false (λ h e. cc)
  loop-Yields node_ids (suc retries) sleep =
      Yields-bind_at _ _
        (Yields-call env Call.list_nodes
          {Q = λ nodes h.
            (before : History) × (h
              ≡ (record { request = Call.list_nodes; succeeded = true } ∷ before))
            × (env.respond before Call.list_nodes ≡ reply nodes)}
          (λ h nodes e. (h, refl, e)))
        (λ nodes h seen. elim (Bool-cases (nodes_registered_and_ready env nodes node_ids)) [
          | inl e ↦ rw e (λ _.
              let parts = test-SeenReady nodes node_ids e in
              record {
                before = seen.0;
                nodes = nodes;
                request = seen.1;
                answer = seen.2;
                all_registered = parts.0;
                all_ready = parts.1;
              })
          | inr e ↦ rw e (
              (Yields-bind (call env (Call.sleep sleep))
                  (λ _. nodes_ready_loop env node_ids retries sleep)
                  (λ _. loop-Yields node_ids retries sleep)).at
                h)
        ])

  settle :
      (node_ids : List String) (ready : Bool) (h : History)
      → (ready ≡ true → SeenReady node_ids h)
      → let m : M (Unit {0}) =
          if ready
          then pure tt
          else (do report_all_not_ready_nodes env; raise (node_ready_timeout (length node_ids))) in
        IfOk (λ _ h. SeenReady node_ids h) (m h).0 (m h).1
  unfolding pure
  settle node_ids true h seen = seen refl
  settle node_ids false h seen = (Yields-bind _ _ (λ _. Yields-raise _)).at h

  wait-Yields :
      (options : KubectlOptions) (node_ids : List String) (max_retries sleep : ℕ)
      → Yields
          (wait_for_nodes_ready env options node_ids max_retries sleep)
          (λ _ h. SeenReady node_ids h)
  unfolding wait_for_nodes_ready
  wait-Yields options node_ids max_retries sleep = Yields-bind _ _ (λ _.
      Yields-bind_at _ _ (loop-Yields node_ids max_retries sleep)
        (λ ready h seen. settle node_ids ready h seen))

  -- A wait for nodes that returns has seen, in its last request, as many nodes with the names it
  -- waits for as there are names, and each of them ready.
  pub wait_for_nodes_ready-SeenReady :
      (options : KubectlOptions) (node_ids : List String) (max_retries sleep : ℕ) (h : History)
      → (wait_for_nodes_ready env options node_ids max_retries sleep h).0 ≡ ok tt
      → SeenReady node_ids (wait_for_nodes_ready env options node_ids max_retries sleep h).1
  wait_for_nodes_ready-SeenReady options node_ids max_retries sleep h =
      Yields-ok _ h (wait-Yields options node_ids max_retries sleep)

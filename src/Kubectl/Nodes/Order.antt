-- ===== src/Kubectl/Nodes/Order.antt =====
-- The commands that cordon and drain nodes (kubectl/node.go), for options that name a kubeconfig.
use kubergrunt.Prelude.{
  ℕ, String, Bool, true, false, Option, none, some, List, [], ◌∷◌, ◌++◌, ◌≡◌, refl, sym, ap, subst,
  ◌∙◌, suc, map,
}
use mathlib.Core.List.{append_assoc, Perm, perm_append_singleton}
use mathlib.Core.List.Perm
use kubergrunt.Cloud.Types.{KubectlOptions, config_based}
use kubergrunt.Cloud.Failure.{Error}
use kubergrunt.Cloud.Request.{Call, Answer, reply, failure, Event, History, Env}
use kubergrunt.Cloud.Monad.{Outcome, ok, M, pure, raise, attempt, ◌>>=◌, call}
use kubergrunt.Cloud.Runs.{bind-ok, bind-err, attempt-ok, attempt-err, call-reply, call-failure}
use kubergrunt.Kubectl.Options.{auth_scheme}
use kubergrunt.Kubectl.Command.{
  flag_unless_empty, run_for_scheme, run_kubectl_with_output, run_kubectl,
}
use kubergrunt.Kubectl.Nodes.{
  return_error, drain_args, drain_node, cordon_node, numbered, run_goroutines, start_goroutines,
  collect_all, for_all_nodes, drain_nodes, cordon_nodes,
}

-- The requests of a history, the latest first.
abbrev pub requests : History → List Call
requests [] = []
requests (e ∷ h) = e.request ∷ requests h

-- The kubectl command with the flags that the options give it.
abbrev pub kubectl_command : KubectlOptions → List String → Call
kubectl_command options args = Call.run_shell_command "kubectl" (
    (flag_unless_empty "--context" options.context_name
      ++ flag_unless_empty "--kubeconfig" options.config_path)
    ++ args)

-- The scheduler runs each goroutine that was started, once.
pub record SchedulerLaws (env : Env) : Type 0 where
  pub scheduled-Perm :
      (h : History) (goroutines : List (ℕ × String)) → Perm (env.scheduled h goroutines) goroutines

-- After the earlier history, there is one request for each node, in some order, and no other.
abbrev pub OneEach : (String → Call) → List String → History → History → Type 0
OneEach request node_ids before after =
    (made : List Call) × (requests after ≡ made ++ requests before)
    × Perm made (map request node_ids)

nodes-numbered : (n : ℕ) (node_ids : List String) → map (λ g. g.1) (numbered n node_ids) ≡ node_ids
unfolding numbered
nodes-numbered n [] = refl
nodes-numbered n (node_id ∷ node_ids) = ap (λ l. node_id ∷ l) (nodes-numbered (suc n) node_ids)

map-map :
    (request : String → Call) (goroutines : List (ℕ × String))
    → map request (map (λ g. g.1) goroutines) ≡ map (λ g. request g.1) goroutines
map-map request [] = refl
map-map request (g ∷ goroutines) = ap (λ l. request g.1 ∷ l) (map-map request goroutines)

module _ (env : Env) where
  -- A command that is attempted makes one request, and the code goes on.
  Attempted : M (Unit {0}) → Call → Type 0
  Attempted m c =
      (h : History)
      → (r : Answer (Unit {0})) × (e : Event) × (attempt m h ≡ (ok r, e ∷ h)) × (e.request ≡ c)

  config_run :
      (options : KubectlOptions) (args : List String) (h : History)
      → auth_scheme options ≡ config_based
      → run_kubectl_with_output env options args h ≡ call env (kubectl_command options args) h
  unfolding run_kubectl_with_output run_for_scheme
  config_run options args h e = rw e refl

  run_kubectl-Attempted :
      (options : KubectlOptions) (args : List String)
      → auth_scheme options ≡ config_based
      → Attempted (run_kubectl env options args) (kubectl_command options args)
  unfolding Attempted run_kubectl pure
  run_kubectl-Attempted options args e h = by_answer (env.respond h c) refl
    where
      c : Call
      c = kubectl_command options args

      by_answer :
          (a : Answer String)
          → env.respond h c ≡ a
          → (r : Answer (Unit {0})) × (ev : Event) × (attempt (run_kubectl env options args) h
              ≡ (ok r, ev ∷ h))
            × (ev.request ≡ c)
      by_answer (reply out) p =
          let after : History = record { request = c; succeeded = true } ∷ h in
          (
            reply tt,
            record { request = c; succeeded = true },
            attempt-ok (run_kubectl env options args) h after tt (
                bind-ok (run_kubectl_with_output env options args) (λ _. pure tt) h after out
                  (config_run options args h e ∙ call-reply env c h out p)),
            refl,
          )
      by_answer (failure x) p =
          let after : History = record { request = c; succeeded = false } ∷ h in
          (
            failure x,
            record { request = c; succeeded = false },
            attempt-err (run_kubectl env options args) h after x (
                bind-err (run_kubectl_with_output env options args) (λ _. pure tt) h after x
                  (config_run options args h e ∙ call-failure env c h x p)),
            refl,
          )

  run_goroutines-requests :
      (command : String → M (Unit {0})) (request : String → Call)
      → ((node_id : String) → Attempted (command node_id) (request node_id))
      → (goroutines : List (ℕ × String)) (h : History)
      → (out : List (ℕ × Answer (Unit {0}))) × (h' : History) × (run_goroutines env command
            goroutines h
          ≡ (ok out, h'))
        × (made : List Call) × (requests h' ≡ made ++ requests h)
        × Perm made (map (λ g. request g.1) goroutines)
  unfolding run_goroutines pure Attempted
  run_goroutines-requests command request attempted [] h = ([], h, refl, [], refl, Perm.refl [])
  run_goroutines-requests command request attempted ((place, node_id) ∷ goroutines) h =
      let (r, ev, run, same) = attempted node_id h in
      let (out, h', rest, made, asked, perm) =
        run_goroutines-requests command request attempted goroutines (ev ∷ h) in
      (
        (place, r) ∷ out,
        h',
        bind-ok (attempt (command node_id))
              (λ r.
                run_goroutines env command goroutines >>= λ answers. pure ((place, r) ∷ answers))
              h (ev ∷ h) r run
            ∙ bind-ok (run_goroutines env command goroutines)
                (λ answers. pure ((place, r) ∷ answers)) (ev ∷ h) h' out rest,
        made ++ (request node_id ∷ []),
        asked ∙ (rw same refl) ∙ sym (append_assoc made (request node_id ∷ []) (requests h)),
        Perm.trans (perm_append_singleton (request node_id) made)
            (Perm.cons (request node_id) perm),
      )

  return_error-requests : (o : Option Error) (h : History) → (return_error o h).1 ≡ h
  unfolding return_error pure raise
  return_error-requests none h = refl
  return_error-requests (some e) h = refl

  for_all-OneEach :
      SchedulerLaws env
      → (command : String → M (Unit {0})) (request : String → Call)
      → ((node_id : String) → Attempted (command node_id) (request node_id))
      → (node_ids : List String) (h : History)
      → let m =
          for_all_nodes env command node_ids >>= λ errs. return_error (env.error_or_nil errs) in
        OneEach request node_ids h (m h).1
  unfolding for_all_nodes start_goroutines pure
  for_all-OneEach laws command request attempted node_ids h =
      let started : List (ℕ × String) = numbered 0 node_ids in
      let (out, h', run, made, asked, perm) =
        run_goroutines-requests command request attempted (env.scheduled h started) h in
      let errs : List Error = collect_all env out started [] in
      let collected =
        bind-ok (start_goroutines env command started)
          (λ answers. pure (collect_all env answers started [])) h h' out run in
      (
        made,
        ap (λ (r : Outcome (Unit {0}) × History). requests r.1)
              (bind-ok (for_all_nodes env command node_ids)
                (λ errs. return_error (env.error_or_nil errs)) h h' errs collected)
            ∙ ap requests (return_error-requests (env.error_or_nil errs) h')
            ∙ asked,
        Perm.trans perm (
            subst (Perm _)
              (sym (map-map request started) ∙ ap (map request) (nodes-numbered 0 node_ids))
              (Perm.map (λ g. request g.1) (laws.scheduled-Perm h started))),
      )

  -- Where kubectl is run on a kubeconfig, and the scheduler runs each goroutine once, a drain runs
  -- `kubectl drain` once for each node, in some order, and makes no other request, whichever of the
  -- commands fail.
  pub drain_nodes-requests :
      SchedulerLaws env
      → (options : KubectlOptions) (node_ids : List String) (timeout : ℕ)
        (delete_empty_dir_data : Bool) (h : History)
      → auth_scheme options ≡ config_based
      → OneEach
          (λ node_id.
            kubectl_command options (drain_args env node_id timeout delete_empty_dir_data))
          node_ids
          h
          (drain_nodes env options node_ids timeout delete_empty_dir_data h).1
  unfolding drain_nodes drain_node
  drain_nodes-requests laws options node_ids timeout delete_empty_dir_data h e =
      for_all-OneEach laws (drain_node env options timeout delete_empty_dir_data)
        (λ node_id. kubectl_command options (drain_args env node_id timeout delete_empty_dir_data))
        (λ node_id.
          run_kubectl-Attempted options (drain_args env node_id timeout delete_empty_dir_data) e)
        node_ids h

  -- Where kubectl is run on a kubeconfig, and the scheduler runs each goroutine once, cordoning runs
  -- `kubectl cordon` once for each node, in some order, and makes no other request, whichever of the
  -- commands fail.
  pub cordon_nodes-requests :
      SchedulerLaws env
      → (options : KubectlOptions) (node_ids : List String) (h : History)
      → auth_scheme options ≡ config_based
      → OneEach
          (λ node_id. kubectl_command options ("cordon" ∷ node_id ∷ []))
          node_ids
          h
          (cordon_nodes env options node_ids h).1
  unfolding cordon_nodes cordon_node
  cordon_nodes-requests laws options node_ids h e =
      for_all-OneEach laws (cordon_node env options)
        (λ node_id. kubectl_command options ("cordon" ∷ node_id ∷ []))
        (λ node_id. run_kubectl-Attempted options ("cordon" ∷ node_id ∷ []) e) node_ids h

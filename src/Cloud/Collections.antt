-- ===== src/Cloud/Collections.antt =====
-- What the code relies on of go-commons collections, which it calls.
use kubergrunt.Prelude.{String, true, List, ◌≡◌, ◌↔◌, In}
use kubergrunt.Cloud.Request.{Env}

-- collections.ListContainsElement finds just what is in the list.
pub record FindsJust (env : Env) : Type 0 where
  pub finds_just :
      (list : List String) (x : String) → (env.list_contains_element list x ≡ true) ↔ In x list

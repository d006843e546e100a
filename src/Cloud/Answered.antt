-- ===== src/Cloud/Answered.antt =====
-- That a request was answered in a given way at some time of a history.
use kubergrunt.Prelude.{[], ◌∷◌, ◌≡◌, ◌⊎◌, inr}
use kubergrunt.Cloud.Request.{Call, Reply, Answer, Event, History, Env}

-- The request stands in the history, and its answer from there was the given one.
abbrev pub Answered : Env → (c : Call) → Answer (Reply c) → History → Type 0
Answered env c a [] = ⊥
Answered env c a (e ∷ h) = ((e.request ≡ c) × (env.respond h c ≡ a)) ⊎ Answered env c a h

pub Answered-more :
    (env : Env) (c : Call) (a : Answer (Reply c)) (e : Event) (h : History)
    → Answered env c a h
    → Answered env c a (e ∷ h)
Answered-more env c a e h k = inr k

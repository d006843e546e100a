-- ===== src/Cloud/Lasting.antt =====
-- Properties of a history that no further request ends, such as that a request was answered.
use kubergrunt.Prelude.{List, ◌∷◌, All, All-map}
use kubergrunt.Cloud.Request.{Event, History}
use kubergrunt.Cloud.Monad.{Outcome, ok, err, panic, hangs, M}
use kubergrunt.Cloud.Yields.{IfOk, Yields}
use kubergrunt.Cloud.Quiet.{Extends, here, more, Quiet}
use kubergrunt.Cloud.Triple.{Triple}

abbrev pub Lasting : (History → Type 0) → Type 0
Lasting P = (e : Event) (h : History) → P h → P (e ∷ h)

pub Lasting-both : (P Q : History → Type 0) → Lasting P → Lasting Q → Lasting (λ h. P h × Q h)
Lasting-both P Q lp lq e h k = (lp e h k.0, lq e h k.1)

pub Lasting-All :
    {A : Type 0} (P : A → History → Type 0) (xs : List A)
    → ((x : A) → Lasting (P x))
    → Lasting (λ h. All (λ x. P x h) xs)
Lasting-All P xs l e h = All-map (λ x. P x h) (λ x. P x (e ∷ h)) (λ x. l x e h) xs

pub Lasting-Extends :
    (P : History → Type 0) → Lasting P → {h h' : History} → Extends h h' → P h → P h'
Lasting-Extends P l here p = p
Lasting-Extends P l (more c b q x) p = l _ _ (Lasting-Extends P l x p)

anyway-IfOk :
    {A : Type 0} (P : History → Type 0) (r : Outcome A) (h : History)
    → P h
    → IfOk (λ _ h'. P h') r h
anyway-IfOk P (ok a) h p = p
anyway-IfOk P (err e) h p = tt
anyway-IfOk P panic h p = tt
anyway-IfOk P hangs h p = tt

-- Code that only makes further requests keeps it.
pub Triple-lasting :
    {A : Type 0} (P : History → Type 0) (m : M A) → Lasting P → Quiet m → Triple P m (λ _ h. P h)
Triple-lasting P m l q = record {
  at = λ h p. anyway-IfOk P (m h).0 (m h).1 (Lasting-Extends P l (q.at h) p);
}

both-IfOk :
    {A : Type 0} (P : History → Type 0) (Q : A → History → Type 0) (r : Outcome A) (h : History)
    → P h
    → IfOk Q r h
    → IfOk (λ a h. P h × Q a h) r h
both-IfOk P Q (ok a) h p q = (p, q)
both-IfOk P Q (err e) h p q = tt
both-IfOk P Q panic h p q = tt
both-IfOk P Q hangs h p q = tt

-- And what the code yields by itself.
pub Triple-both :
    {A : Type 0} (P : History → Type 0) {Q : A → History → Type 0} (m : M A)
    → Lasting P
    → Quiet m
    → Yields m Q
    → Triple P m (λ a h. P h × Q a h)
Triple-both P {Q} m l q y = record {
  at = λ h p. both-IfOk P Q (m h).0 (m h).1 (Lasting-Extends P l (q.at h) p) (y.at h);
}

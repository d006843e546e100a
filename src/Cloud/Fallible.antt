-- ===== src/Cloud/Fallible.antt =====
-- Code that makes no request and can fail: a value or an error.
use kubergrunt.Prelude.{◌≡◌, refl, subst}
use kubergrunt.Cloud.Request.{Answer, reply, failure}

infixl 5 ◌>>=◌
unfoldable pub ◌>>=◌ : {A B : Type 0} → Answer A → (A → Answer B) → Answer B
reply a >>= next = next a
failure e >>= next = failure e

-- The property of a value; nothing is said of an error.
abbrev pub Replies : {A : Type 0} → (A → Type 0) → Answer A → Type 0
Replies Q (reply a) = Q a
Replies Q (failure e) = Unit

pub Replies-bind :
    {A B : Type 0} (R : B → Type 0) (m : Answer A) (next : A → Answer B)
    → ((a : A) → m ≡ reply a → Replies R (next a))
    → Replies R (m >>= next)
unfolding ◌>>=◌
Replies-bind R (reply a) next f = f a refl
Replies-bind R (failure e) next f = tt

-- The property at code that has a value.
pub replied : {A : Type 0} (Q : A → Type 0) (m : Answer A) (a : A) → Replies Q m → m ≡ reply a → Q a
replied Q m a h e = subst (Replies Q) e h

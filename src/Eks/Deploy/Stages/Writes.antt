-- ===== src/Eks/Deploy/Stages/Writes.antt =====
-- Writing an honest state, and reading it back (eks/deploy_state.go).
use kubergrunt.Prelude.{ℕ, String, Bool, true, false, ◌∷◌, ◌≡◌, refl, sym, ◌∙◌, subst}
use kubergrunt.Cloud.Types.{DeployState}
use kubergrunt.Cloud.Request.{Call, Reply, Answer, reply, failure, succeeds, History, Env}
use kubergrunt.Cloud.Monad.{Outcome, ok, err, panic, hangs, lift, attempt, call, outcome_of}
use kubergrunt.Eks.Deploy.{
  Session, persist, persisted, read_deploy_state, load_deploy_state, init_deploy_state,
}
use kubergrunt.Eks.Deploy.Trace.{
  EnvLaws, Honest, Honest-more, Honest-new, Justified, Sound, written-Honest,
}
use kubergrunt.Eks.Deploy.Meets.{Post, Meets, Meets-pure, Meets-lift, Meets-bind}

module _ (env : Env) where
  answered-Post :
      (c : Call) (Q : Reply c → History → Type 0) (h : History) (r : Answer (Reply c))
      → Sound env h
      → Justified env c h
      → ((a : Reply c) → r ≡ reply a → Q a (record { request = c; succeeded = true } ∷ h))
      → Post env Q (outcome_of r) (record { request = c; succeeded = succeeds r } ∷ h)
  answered-Post c Q h (reply a) s j q = ((j, s), q a refl)
  answered-Post c Q h (failure e) s j q = (j, s)

  -- A request that is justified.
  pub Meets-call :
      {P : History → Type 0} (c : Call) {Q : Reply c → History → Type 0}
      → ((h : History) → Sound env h → P h → Justified env c h)
      → ((h : History) (a : Reply c)
          → Sound env h
          → P h
          → env.respond h c ≡ reply a
          → Q a (record { request = c; succeeded = true } ∷ h))
      → Meets env P (call env c) Q
  unfolding call
  Meets-call c {Q} j q = record {
    at = λ h s p. answered-Post c Q h (env.respond h c) s (j h s p) (λ a e. q h a s p e);
  }

  tried-Post :
      (c : Call) (Q : Answer (Reply c) → History → Type 0) (h : History) (r : Answer (Reply c))
      → Sound env h
      → Justified env c h
      → Q r (record { request = c; succeeded = succeeds r } ∷ h)
      → let h' : History = record { request = c; succeeded = succeeds r } ∷ h in
        let out = elim (outcome_of r) as (λ _. Outcome (Answer (Reply c)) × History) [
          | ok a ↦ (ok (reply a), h')
          | err e ↦ (ok (failure e), h')
          | panic ↦ (panic, h')
          | hangs ↦ (hangs, h')
        ] in
        Post env Q out.0 out.1
  tried-Post c Q h (reply a) s j q = ((j, s), q)
  tried-Post c Q h (failure e) s j q = ((j, s), q)

  -- A justified request whose error the code looks at itself.
  pub Meets-try :
      {P : History → Type 0} (c : Call) {Q : Answer (Reply c) → History → Type 0}
      → ((h : History) → Sound env h → P h → Justified env c h)
      → ((h : History) (r : Answer (Reply c))
          → Sound env h
          → P h
          → env.respond h c ≡ r
          → Q r (record { request = c; succeeded = succeeds r } ∷ h))
      → Meets env P (attempt (call env c)) Q
  unfolding call attempt
  Meets-try c {Q} j q = record {
    at = λ h s p. tried-Post c Q h (env.respond h c) s (j h s p) (q h (env.respond h c) s p refl);
  }

reply-injective : {A : Type 0} (a b : A) → reply a ≡ reply b → a ≡ b
reply-injective a b p = cc

module _ (env : Env) (laws : EnvLaws env) where
  -- An honest state is written.
  pub persist-Meets :
      (s : DeployState) → Meets env (λ h. Honest s h) (persist env s) (λ _ h. Honest s h)
  unfolding persist
  persist-Meets s =
      Meets-bind env (lift (env.marshal s)) _
        (Meets-lift env {Q = λ bytes h. (env.marshal s ≡ reply bytes) × Honest s h} (env.marshal s)
          (λ bytes e h k. (e, k)))
        (λ bytes.
          Meets-call env (Call.write_file s.path bytes)
            (λ h sound p s' e.
              subst (λ t. Honest t h)
                (reply-injective s s' (sym (laws.unmarshal-marshal s bytes p.0) ∙ e)) p.1)
            (λ h _ sound p e. Honest-more s _ h p.1))

  -- The end of a stage returns the session that it has written.
  pub persisted-Meets :
      (s : Session)
      → Meets env (λ h. Honest s.state h) (persisted env s) (λ s' h. (s' ≡ s) × Honest s.state h)
  unfolding persisted
  persisted-Meets s =
      Meets-bind env (persist env s.state) _ (persist-Meets s.state)
        (λ _. Meets-pure env s (λ h k. (refl, k)))

  -- What a read of the file may be used for: a state in it is honest.
  abbrev IsHonestFile : Answer String → History → Type 0
  IsHonestFile (failure _) h = Unit
  IsHonestFile (reply bytes) h = (s : DeployState) → env.unmarshal bytes ≡ reply s → Honest s h

  read-IsHonestFile :
      (file : String) (h : History) (r : Answer String)
      → Sound env h
      → env.respond h (Call.read_file file) ≡ r
      → (b : Bool) → IsHonestFile r (record { request = Call.read_file file; succeeded = b } ∷ h)
  read-IsHonestFile file h (failure e) sound p b = tt
  read-IsHonestFile file h (reply bytes) sound p b = λ s e.
      Honest-more s _ h
        (written-Honest env laws h file bytes s sound e (laws.reads_written h file bytes s p e))

  read_state-Meets :
      (file : String) (r : Answer String)
      → Meets env (IsHonestFile r) (read_deploy_state env file r) (λ s h. Honest s h)
  unfolding read_deploy_state
  read_state-Meets file (failure e) = Meets-pure env _ (λ h _. Honest-new file h)
  read_state-Meets file (reply bytes) = Meets-lift env (env.unmarshal bytes) (λ s e h k. k s e)

  load-Meets :
      (file : String) (ignore : Bool)
      → Meets env (λ _. Unit {0}) (load_deploy_state env file ignore) (λ s h. Honest s h)
  unfolding load_deploy_state
  load-Meets file true = Meets-pure env _ (λ h _. Honest-new file h)
  load-Meets file false =
      Meets-bind env (attempt (call env (Call.read_file file))) _
        (Meets-try env (Call.read_file file) {Q = IsHonestFile} (λ h s p. tt)
          (λ h r s p e. read-IsHonestFile file h r s e (succeeds r)))
        (read_state-Meets file)

  -- The state that a run starts from is honest.
  pub init-Meets :
      (file : String) (ignore : Bool) (retries sleep : ℕ)
      → Meets env
          (λ _. Unit {0})
          (init_deploy_state env file ignore retries sleep)
          (λ s h. Honest s.state h)
  unfolding init_deploy_state
  init-Meets file ignore retries sleep =
      Meets-bind env (load_deploy_state env file ignore) _ (load-Meets file ignore)
        (λ s. Meets-pure env _ (λ h k. k))

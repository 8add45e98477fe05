-- ===== src/Gateway/Reconcile/Honest.antt =====
-- What the status of a Gateway claims, and that a settled Gateway is left alone.
use agentic_controller.Prelude.{
  ℕ, String, ◌≡◌, refl, sym, ap, ◌∙◌, Bool, true, false, not, ◌&&◌, ◌||◌, Option, none, some, List,
  [], ◌∷◌, any, Result, ok, err, ◌==◌, arith, if◌then◌else◌, if_elim, if_cases,
}
use mathlib.Core.Bool.{true≢false}
use agentic_controller.Text.Split.{is_nil, fields}
use agentic_controller.Api.{
  Message, ConditionStatus, condition_true, condition_false, Condition, ApiError, not_found,
  already_exists, unavailable, Reply, done,
}
use agentic_controller.Api.Conditions.{is_condition_true}
use agentic_controller.Gateway.Names.{
  SecretData, secret_value, sanitize_volume_name, verification_job_name,
}
use agentic_controller.Gateway.{
  GatewayStatus, Gateway, Job, GatewayCluster, GatewayEffects, has_models_probe,
  is_terminal_ready_reason, is_job_complete, is_job_succeeded, gateway_verify_reason, reached,
  not_reached, diag_value, verification_diagnostic,
}
use agentic_controller.Gateway.Reconcile.{
  nothing, set_ready, patch_status, not_configured, credential_hash, stamped, skipped, verifying,
  settle_job, finish_job, start_job, follow_job, after_deletions, delete_jobs, is_settled,
  reason_of, verify, is_missing, with_secret, reconcile_gateway,
}

module _ (c : GatewayCluster) where
  -- the digest of the credential that the Secret holds for the Gateway, if it holds one
  abbrev pub current_hash : Gateway → Result ApiError SecretData → Option (List ℕ)
  current_hash g (err e) = none
  current_hash g (ok entries) =
      if not (g.secret_key == "") && is_missing (secret_value g.secret_key entries)
      then none
      else if g.secret_key == "" && is_nil entries
      then none
      else some (credential_hash c g entries)

  -- the Job's condition of that type is met
  abbrev pub has_met : String → List (String × String) → Bool
  has_met kind conditions = any (λ (p : String × String). p.0 == kind && p.1 == "True") conditions

  abbrev pub job_has_met : String → Result ApiError Job → Bool
  job_has_met kind (err e) = false
  job_has_met kind (ok job) = has_met kind job.conditions

  -- the provider can be checked, and the Job of this generation and this credential has met a condition
  abbrev pub checked_as : String → Gateway → Option (List ℕ) → Bool
  checked_as kind g none = false
  checked_as kind g (some hash) =
      has_models_probe g.provider
      && job_has_met kind (c.get_job (verification_job_name c.digest g.name g.generation hash))

  -- the reasons that say that a check has failed
  abbrev pub reports_failure : String → Bool
  reports_failure reason =
      is_terminal_ready_reason reason
      && not (reason == "ConnectionVerified")
      && not (reason == "VerificationSkipped")

  -- what stands behind the reason: a Job that has completed, one that has failed and not completed, or
  -- a provider that cannot be checked
  pub record IsFounded (g : Gateway) (reason : String) : Type 0 where
    pub succeeded :
        (reason == "ConnectionVerified") ≡ true
        → checked_as "Complete" g (current_hash g (c.get_secret g.secret_name)) ≡ true
    pub failed :
        reports_failure reason ≡ true
        → (checked_as "Failed" g (current_hash g (c.get_secret g.secret_name)) ≡ true)
          × (checked_as "Complete" g (current_hash g (c.get_secret g.secret_name)) ≡ false)
    pub skipped : (reason == "VerificationSkipped") ≡ true → has_models_probe g.provider ≡ false

  -- The Ready condition is of this generation. The connection is reported as verified exactly where a
  -- check has succeeded, and the Gateway as Ready where one has or where none is possible; a verdict
  -- is one on the credential that the Secret holds; and without a probe the only verdict is that
  -- nothing was checked.
  pub record IsHonest (g : Gateway) : Type 0 where
    pub ready : Condition
    pub found : c.library.find g.status.conditions "Ready" ≡ some ready
    pub generation : ready.observed_generation ≡ g.generation
    pub verified : g.status.connection_verified ≡ (ready.reason == "ConnectionVerified")
    pub usable :
        is_condition_true ready.status
        ≡ (ready.reason == "ConnectionVerified" || ready.reason == "VerificationSkipped")
    pub credential :
        is_terminal_ready_reason ready.reason ≡ true
        → current_hash g (c.get_secret g.secret_name) ≡ some g.status.verified_credential_hash
    pub unprobed :
        is_terminal_ready_reason ready.reason ≡ true
        → has_models_probe g.provider ≡ false
        → (ready.reason == "VerificationSkipped") ≡ true
    pub founded : IsFounded g ready.reason

  has_met-is_job_succeeded :
      (l : List (String × String)) → has_met "Complete" l ≡ is_job_succeeded l
  unfolding is_job_succeeded
  has_met-is_job_succeeded [] = refl
  has_met-is_job_succeeded ((kind, status) ∷ rest) = rw (has_met-is_job_succeeded rest) refl

  has_met-is_job_complete :
      (l : List (String × String))
      → is_job_complete l ≡ true
      → is_job_succeeded l ≡ false
      → has_met "Failed" l ≡ true
  unfolding is_job_complete is_job_succeeded
  has_met-is_job_complete [] h k = h
  has_met-is_job_complete ((kind, status) ∷ rest) h k = ground (arith, has_met-is_job_complete rest)

  module _ (g : Gateway) where
    -- the Gateway that a reconcile patches, if it patches one: nothing but the status is new
    abbrev pub Patched : Option Gateway → Type 0
    Patched none = Unit
    Patched (some h) = IsHonest h × (record g { status = h.status } ≡ h)

    pub record Writes (e : GatewayEffects) : Type 0 where
      pub honest : Patched e.patched

    -- what a reason says, for a check that succeeded or not
    record Says (reason : String) (verified ready : Bool) : Type 0 where
      verified_is : verified ≡ (reason == "ConnectionVerified")
      ready_is : ready ≡ (reason == "ConnectionVerified" || reason == "VerificationSkipped")

    patch_status-Writes :
        (verified : Bool) (status : ConditionStatus) (reason : String) (m : Message)
        (s : GatewayStatus)
        → Says reason verified (is_condition_true status)
        → (is_terminal_ready_reason reason ≡ true
            → current_hash g (c.get_secret g.secret_name) ≡ some s.verified_credential_hash)
        → (is_terminal_ready_reason reason ≡ true
            → has_models_probe g.provider ≡ false
            → (reason == "VerificationSkipped") ≡ true)
        → IsFounded g reason
        → Writes (patch_status c g (set_ready c g verified status reason m s))
    unfolding patch_status set_ready credential_hash
    patch_status-Writes verified status reason m s says current unprobed founded = record {
      honest = (
        record {
          ready = _;
          found = c.library.find-set_self s.conditions _;
          generation = refl;
          verified = says.verified_is;
          usable = says.ready_is;
          credential = current;
          unprobed = unprobed;
          founded = record {
            succeeded = founded.succeeded;
            failed = founded.failed;
            skipped = founded.skipped;
          };
        },
        refl,
      );
    }

    not_terminal :
        (reason : String) → is_terminal_ready_reason reason ≡ false → Says reason false false
    unfolding is_terminal_ready_reason
    not_terminal reason e = record { verified_is = ground arith; ready_is = ground arith }

    -- a reason without a verdict
    not_terminal-IsFounded :
        (reason : String) → is_terminal_ready_reason reason ≡ false → IsFounded g reason
    unfolding is_terminal_ready_reason
    not_terminal-IsFounded reason e = record {
      succeeded = λ t. absurd (true≢false (sym t ∙ ground arith));
      failed = λ t. absurd (true≢false (sym t ∙ ground arith));
      skipped = λ t. absurd (true≢false (sym t ∙ ground arith));
    }

    not_configured-Writes :
        (reason : String) (m : Message)
        → is_terminal_ready_reason reason ≡ false
        → Writes (not_configured c g reason m)
    unfolding not_configured is_condition_true is_terminal_ready_reason
    not_configured-Writes reason m e =
        let no_verdict = not_terminal reason e in
        patch_status-Writes false condition_false reason m g.status no_verdict
          (λ t. absurd (true≢false (sym t ∙ e))) (λ t. absurd (true≢false (sym t ∙ e)))
          (not_terminal-IsFounded reason e)

    verifying-Writes : Writes (verifying c g)
    unfolding verifying is_condition_true is_terminal_ready_reason
    verifying-Writes =
        patch_status-Writes false condition_false "Verifying" _ g.status
          (record { verified_is = refl; ready_is = refl }) (λ t. cc) (λ t. cc)
          (not_terminal-IsFounded "Verifying" refl)

    nothing-Writes : (r : Reply) → Writes (nothing r)
    nothing-Writes r = record { honest = tt }

    module _ (hash : List ℕ)
        (current : current_hash g (c.get_secret g.secret_name) ≡ some hash) where
      skipped-Writes : has_models_probe g.provider ≡ false → Writes (skipped c g hash)
      unfolding skipped stamped is_condition_true is_terminal_ready_reason
      skipped-Writes unprobed =
          patch_status-Writes false condition_true "VerificationSkipped" _ (stamped c g hash)
            (record { verified_is = refl; ready_is = refl }) (λ _. current) (λ _ _. refl)
            (record { succeeded = λ t. cc; failed = λ t. cc; skipped = λ _. unprobed })

      settle_job-Writes :
          (succeeded : Bool) (r : String × Message)
          → Says r.0 succeeded succeeded
          → has_models_probe g.provider ≡ true
          → IsFounded g r.0
          → Writes (settle_job c g hash succeeded r)
      unfolding settle_job stamped is_condition_true
      settle_job-Writes true (reason, m) says probe founded =
          patch_status-Writes true condition_true reason m (stamped c g hash) says (λ _. current)
            (λ _ e. absurd (true≢false (sym probe ∙ e))) founded
      settle_job-Writes false (reason, m) says probe founded =
          patch_status-Writes false condition_false reason m (stamped c g hash) says (λ _. current)
            (λ _ e. absurd (true≢false (sym probe ∙ e))) founded

      refusal-Says :
          (r : String × Message)
          → (r.0 == "ConnectionVerified") ≡ false
          → (r.0 == "VerificationSkipped") ≡ false
          → Says r.0 false false
      refusal-Says r e f = record { verified_is = sym e; ready_is = rw (e, f) refl }

      not_reached-Says :
          (endpoint : Message) (job : List ℕ) (words : List (List ℕ)) (code : List ℕ)
          → Says (not_reached endpoint job words code).0 false false
      unfolding not_reached
      not_reached-Says endpoint job words code =
          search (if_elim (λ (r : String × Message). Says r.0 false false), refusal-Says)

      gateway_verify_reason-Says :
          (diag : List ℕ) (endpoint : Message) (job : List ℕ) (succeeded : Bool)
          → Says (gateway_verify_reason diag endpoint job succeeded).0 succeeded succeeded
      unfolding gateway_verify_reason reached
      gateway_verify_reason-Says diag endpoint job true = record {
        verified_is = refl;
        ready_is = refl;
      }
      gateway_verify_reason-Says diag endpoint job false =
          not_reached-Says endpoint job (fields diag) (diag_value "code" (fields diag))

      -- the Job that was looked at, of this generation and this credential
      module _ (job : Job)
          (found : c.get_job (verification_job_name c.digest g.name g.generation hash) ≡ ok job)
          (probe : has_models_probe g.provider ≡ true) where
        checked_as-job :
            (kind : String)
            → checked_as kind g (current_hash g (c.get_secret g.secret_name))
              ≡ has_met kind job.conditions
        checked_as-job kind = rw (current, probe, found) refl

        failure-IsFounded :
            (r : String × Message)
            → Says r.0 false false
            → is_job_complete job.conditions ≡ true
            → is_job_succeeded job.conditions ≡ false
            → IsFounded g r.0
        failure-IsFounded r says h k =
            let unverified : (r.0 == "ConnectionVerified") ≡ false = sym says.verified_is in
            let unskipped : (r.0 == "VerificationSkipped") ≡ false =
              ground (arith, says.ready_is) in
            record {
              succeeded = λ t. absurd (true≢false (sym t ∙ unverified));
              failed = λ _. (
                checked_as-job "Failed" ∙ has_met-is_job_complete job.conditions h k,
                checked_as-job "Complete" ∙ has_met-is_job_succeeded job.conditions ∙ k,
              );
              skipped = λ t. absurd (true≢false (sym t ∙ unskipped));
            }

        gateway_verify_reason-IsFounded :
            (diag : List ℕ) (name : List ℕ) (succeeded : Bool)
            → is_job_complete job.conditions ≡ true
            → is_job_succeeded job.conditions ≡ succeeded
            → IsFounded g (gateway_verify_reason diag g.endpoint name succeeded).0
        unfolding gateway_verify_reason reached is_terminal_ready_reason
        gateway_verify_reason-IsFounded diag name true h k = record {
          succeeded = λ _. checked_as-job "Complete" ∙ has_met-is_job_succeeded job.conditions ∙ k;
          failed = λ t. cc;
          skipped = λ t. cc;
        }
        gateway_verify_reason-IsFounded diag name false h k =
            failure-IsFounded (not_reached g.endpoint name (fields diag) _)
              (not_reached-Says g.endpoint name (fields diag) (diag_value "code" (fields diag))) h k

        finish_job-Writes :
            (name : List ℕ)
            → is_job_complete job.conditions ≡ true
            → Writes (finish_job c g name hash job)
        unfolding finish_job
        finish_job-Writes name h =
            let diag = verification_diagnostic (c.probe name) in
            let succeeded = is_job_succeeded job.conditions in
            record {
              honest =
                  (settle_job-Writes succeeded _
                    (gateway_verify_reason-Says diag g.endpoint name succeeded) probe
                    (gateway_verify_reason-IsFounded diag name succeeded h refl)).honest;
            }

      start_job-Writes :
          (name : List ℕ) (o : Option Message) (e : Option ApiError)
          → Writes (start_job c g name o e)
      unfolding start_job
      start_job-Writes name (some m) e = record { honest = tt }
      start_job-Writes name none (some e) = record { honest = tt }
      start_job-Writes name none none = record { honest = verifying-Writes.honest }

      follow_job-Writes :
          (r : Result ApiError Job)
          → c.get_job (verification_job_name c.digest g.name g.generation hash) ≡ r
          → has_models_probe g.provider ≡ true
          → Writes (follow_job c g (verification_job_name c.digest g.name g.generation hash) hash r)
      unfolding follow_job
      follow_job-Writes (err not_found) found probe = start_job-Writes _ c.set_owner c.create_job
      follow_job-Writes (err already_exists) found probe = record { honest = tt }
      follow_job-Writes (err (unavailable m)) found probe = record { honest = tt }
      follow_job-Writes (ok job) found probe =
          if_cases Writes (is_job_complete job.conditions)
            (finish_job-Writes job found probe
              (verification_job_name c.digest g.name g.generation hash))
            λ _. verifying-Writes

      delete_jobs-Writes :
          (keep : List ℕ) (r : Result ApiError (List Job)) (e : GatewayEffects)
          → Writes e
          → Writes (delete_jobs c g keep r e)
      unfolding delete_jobs after_deletions
      delete_jobs-Writes keep (err x) e h = record { honest = tt }
      delete_jobs-Writes keep (ok jobs) e h = record { honest = h.honest }

      skip-Writes :
          (b : Bool) (jobs : Result ApiError (List Job))
          → has_models_probe g.provider ≡ false
          → Writes (if b then nothing done else delete_jobs c g [] jobs (skipped c g hash))
      skip-Writes b jobs unprobed =
          if_elim Writes b (nothing-Writes done)
            (delete_jobs-Writes [] jobs (skipped c g hash) (skipped-Writes unprobed))

      check-Writes :
          (b : Bool) (jobs : Result ApiError (List Job))
          → has_models_probe g.provider ≡ true
          → (let name = verification_job_name c.digest g.name g.generation hash in
              Writes (
                if b
                then nothing done
                else delete_jobs c g name jobs (follow_job c g name hash (c.get_job name))))
      check-Writes b jobs probe =
          let name = verification_job_name c.digest g.name g.generation hash in
          if_elim Writes b (nothing-Writes done) (
            delete_jobs-Writes name jobs (follow_job c g name hash (c.get_job name))
              (follow_job-Writes (c.get_job name) refl probe))

      verify-Writes : (ready : Option Condition) → Writes (verify c g hash ready)
      unfolding verify
      verify-Writes ready =
          let settled = is_settled c g hash ready in
          let jobs = c.list_jobs (sanitize_volume_name c.digest g.name) in
          if_cases Writes (not (has_models_probe g.provider))
            (λ e.
              skip-Writes (settled && reason_of c g ready == "VerificationSkipped") jobs
                (ground (arith, e)))
            λ e.
              check-Writes (settled && is_terminal_ready_reason (reason_of c g ready)) jobs
                (ground (arith, e))

    with_secret-Writes :
        (r : Result ApiError SecretData)
        → c.get_secret g.secret_name ≡ r
        → Writes (with_secret c g r)
    unfolding with_secret is_terminal_ready_reason
    with_secret-Writes (err not_found) e = not_configured-Writes _ _ refl
    with_secret-Writes (err already_exists) e = record { honest = tt }
    with_secret-Writes (err (unavailable m)) e = record { honest = tt }
    with_secret-Writes (ok entries) e =
        if_cases Writes (not (g.secret_key == "") && is_missing (secret_value g.secret_key entries))
          (λ _. not_configured-Writes _ _ refl)
          λ k.
            if_cases Writes (g.secret_key == "" && is_nil entries)
              (λ _. not_configured-Writes _ _ refl)
              λ n.
                verify-Writes (credential_hash c g entries) (ap (current_hash g) e ∙ rw (k, n) refl)
                  _

  -- A reconcile that patches a Gateway changes nothing but its status, and leaves it honest: the Ready
  -- condition is of the Gateway's generation; the connection is reported as verified only where the Job of
  -- this generation and this credential has completed, and as failed only where that Job has failed and
  -- not completed; the Gateway is Ready where the connection is verified or where its provider cannot be
  -- checked; and a verdict is stamped with the digest of the credential that the Secret holds.
  pub reconcile_gateway-Writes : (g : Gateway) → Writes g (reconcile_gateway c g)
  unfolding reconcile_gateway
  reconcile_gateway-Writes g = with_secret-Writes g (c.get_secret g.secret_name) refl

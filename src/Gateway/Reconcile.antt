-- ===== src/Gateway/Reconcile.antt =====
-- `Reconcile` of internal/controller/gateway_controller.go.
pub mod Honest
pub mod Settled
use agentic_controller.Prelude.{
  ℕ, String, Bool, true, false, not, ◌&&◌, ◌||◌, Option, none, some, List, [], ◌∷◌, ◌++◌, Result,
  ok, err, ◌==◌, eqb, if◌then◌else◌,
}
use agentic_controller.Text.Split.{is_nil}
use agentic_controller.Text.{equal_texts}
use agentic_controller.Api.{
  Message, text, runes, format1, format2, ConditionStatus, condition_true, condition_false,
  Condition, ApiError, not_found, unavailable, Reply, done, fail_with,
}
use agentic_controller.Gateway.Names.{
  SecretData, secret_value, credential_bytes, sanitize_volume_name, verification_job_name,
}
use agentic_controller.Gateway.{
  GatewayStatus, Gateway, Job, GatewayCluster, GatewayEffects, has_models_probe,
  is_terminal_ready_reason, is_job_complete, is_job_succeeded, verification_diagnostic,
  gateway_verify_reason,
}

abbrev pub is_missing : Option (List ℕ) → Bool
is_missing none = true
is_missing (some v) = false

-- what the next step of a reconcile still does, behind deletions
abbrev pub nothing : Reply → GatewayEffects
nothing reply = record { deleted_jobs = []; created_job = none; patched = none; reply = reply }

-- the Jobs that are deleted: all but the one to keep
unfoldable pub stale_jobs : List ℕ → List Job → List (List ℕ)
unfolding equal_texts
stale_jobs keep [] = []
stale_jobs keep (j ∷ js) =
    let rest = stale_jobs keep js in if equal_texts j.name keep then rest else j.name ∷ rest

module _ (c : GatewayCluster) (g : Gateway) where
  -- the Ready condition, and whether a check has succeeded
  unfoldable pub set_ready :
      Bool → ConditionStatus → String → Message → GatewayStatus → GatewayStatus
  set_ready verified status reason message s = record s {
    observed_generation = g.generation;
    connection_verified = verified;
    conditions = c.library.set s.conditions (record {
      condition_type = "Ready";
      status = status;
      observed_generation = g.generation;
      reason = reason;
      message = message;
    });
  }

  reply_of : Option ApiError → Reply
  reply_of none = done
  reply_of (some e) = fail_with e

  -- `patchStatus`
  unfoldable pub patch_status : GatewayStatus → GatewayEffects
  unfolding reply_of
  patch_status s = record {
    deleted_jobs = [];
    created_job = none;
    patched = some (record g { status = s });
    reply = reply_of c.patch_error;
  }

  not_configured : String → Message → GatewayEffects
  unfolding patch_status set_ready
  not_configured reason message =
      patch_status (set_ready false condition_false reason message g.status)

  -- `credentialHash`
  unfoldable pub credential_hash : SecretData → List ℕ
  credential_hash entries = c.sha256 (credential_bytes g.secret_key entries)

  stamped : List ℕ → GatewayStatus
  stamped hash = record g.status { verified_credential_hash = hash }

  -- the Gateway is usable, but nothing was checked
  skipped : List ℕ → GatewayEffects
  unfolding patch_status set_ready stamped
  skipped hash = patch_status (
      set_ready false condition_true "VerificationSkipped"
        (format1
          "Provider %q has no OpenAI-compatible /v1/models to probe; endpoint and credentials are unverified"
          (runes g.provider))
        (stamped hash))

  verifying : GatewayEffects
  unfolding patch_status set_ready
  verifying = patch_status (
      set_ready false condition_false "Verifying" (text "Connectivity verification in progress")
        g.status)

  settle_job : List ℕ → Bool → String × Message → GatewayEffects
  unfolding patch_status set_ready stamped
  settle_job hash succeeded (reason, message) = patch_status (
      set_ready succeeded (if succeeded then condition_true else condition_false) reason message
        (stamped hash))

  -- the finished Job is deleted after its diagnostic has been read
  finish_job : List ℕ → List ℕ → Job → GatewayEffects
  unfolding settle_job is_job_succeeded gateway_verify_reason verification_diagnostic
  finish_job name hash job =
      let succeeded = is_job_succeeded job.conditions in
      let diag = verification_diagnostic (c.probe name) in
      record (settle_job hash succeeded (gateway_verify_reason diag g.endpoint name succeeded)) {
        deleted_jobs = name ∷ [];
      }

  -- `createVerificationJob`, and what follows it
  start_job : List ℕ → Option Message → Option ApiError → GatewayEffects
  unfolding verifying
  start_job name (some e) created =
      nothing (fail_with (unavailable (format1 "setting owner reference: %w" e)))
  start_job name none (some e) = record (nothing (fail_with e)) { created_job = some name }
  start_job name none none = record verifying { created_job = some name }

  unfoldable pub follow_job : List ℕ → List ℕ → Result ApiError Job → GatewayEffects
  unfolding start_job finish_job verifying is_job_complete
  follow_job name hash (err not_found) = start_job name c.set_owner c.create_job
  follow_job name hash (err e) = nothing (fail_with e)
  follow_job name hash (ok job) =
      if is_job_complete job.conditions then finish_job name hash job else verifying

  after_deletions : List (List ℕ) → GatewayEffects → GatewayEffects
  after_deletions deleted e = record e { deleted_jobs = deleted ++ e.deleted_jobs }

  -- `deleteVerificationJobs`; a deletion that fails is only logged
  unfoldable pub delete_jobs : List ℕ → Result ApiError (List Job) → GatewayEffects → GatewayEffects
  unfolding after_deletions stale_jobs
  delete_jobs keep (err e) next = nothing (fail_with e)
  delete_jobs keep (ok jobs) next = after_deletions (stale_jobs keep jobs) next

  -- the Ready condition speaks for this generation, against the credential now in the Secret
  unfoldable pub is_settled : List ℕ → Option Condition → Bool
  unfolding equal_texts
  is_settled hash none = false
  is_settled hash (some ready) =
      eqb ready.observed_generation g.generation
      && equal_texts g.status.verified_credential_hash hash

  reason_of : Option Condition → String
  reason_of none = ""
  reason_of (some ready) = ready.reason

  unfoldable pub verify : List ℕ → Option Condition → GatewayEffects
  unfolding is_settled reason_of skipped follow_job delete_jobs has_models_probe
      is_terminal_ready_reason sanitize_volume_name verification_job_name
  verify hash ready =
      let settled = is_settled hash ready in
      let jobs = c.list_jobs (sanitize_volume_name c.digest g.name) in
      if not (has_models_probe g.provider)
      then (if settled && reason_of ready == "VerificationSkipped"
          then nothing done
          else delete_jobs [] jobs (skipped hash))
      else if settled && is_terminal_ready_reason (reason_of ready)
      then nothing done
      else (let name = verification_job_name c.digest g.name g.generation hash in
          delete_jobs name jobs (follow_job name hash (c.get_job name)))

  with_secret : Result ApiError SecretData → GatewayEffects
  unfolding not_configured verify credential_hash secret_value
  with_secret (err not_found) =
      not_configured "CredentialSecretNotFound" (format1 "Secret %q not found" (text g.secret_name))
  with_secret (err e) = nothing (fail_with e)
  with_secret (ok entries) =
      if not (g.secret_key == "") && is_missing (secret_value g.secret_key entries)
      then not_configured "CredentialKeyNotFound"
          (format2 "Key %q not found in Secret %q" (text g.secret_key) (text g.secret_name))
      else if g.secret_key == "" && is_nil entries
      then not_configured "CredentialSecretEmpty"
          (format1 "Secret %q has no data keys" (text g.secret_name))
      else verify (credential_hash entries) (c.library.find g.status.conditions "Ready")

  -- `Reconcile`, of a Gateway that exists
  unfoldable pub reconcile_gateway : GatewayEffects
  unfolding with_secret
  reconcile_gateway = with_secret (c.get_secret g.secret_name)

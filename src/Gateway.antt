-- ===== src/Gateway.antt =====
-- internal/controller/gateway_controller.go: a Gateway's connection is verified by a Job, once for each
-- generation and credential. What the API server answers is given; log lines are left out.
pub mod Names
pub mod Reconcile
use agentic_controller.Prelude.{
  ℕ, String, Bool, true, false, not, ◌&&◌, ◌||◌, Option, none, some, List, [], ◌∷◌, ◌++◌, Result,
  ok, err, ◌==◌, eqb, map, is_some, if◌then◌else◌,
}
use agentic_controller.Text.Split.{is_nil, is_among, fields, lower, trim_prefix}
use agentic_controller.Text.{codes, trim_space, equal_texts, has_prefix}
use agentic_controller.Api.{
  Message, text, runes, format1, format2, ConditionStatus, condition_true, condition_false,
  Condition, StatusConditions, ApiError, not_found, unavailable, Reply, done, fail_with,
}
use agentic_controller.Gateway.Names.{
  SecretData, secret_value, credential_bytes, sanitize_volume_name, verification_job_name,
}

pub record GatewayStatus : Type 0 where
  pub observed_generation : ℕ
  pub connection_verified : Bool
  pub verified_credential_hash : List ℕ
  pub conditions : List Condition

pub record Gateway : Type 0 where
  pub name : List ℕ
  pub generation : ℕ
  pub provider : List ℕ
  pub endpoint : Message
  pub secret_name : String
  pub secret_key : String
  pub status : GatewayStatus

-- a container of a verification pod: its name, and its termination message if it is terminated
pub record ProbeContainer : Type 0 where
  pub name : String
  pub terminated : Option (List ℕ)

pub record Job : Type 0 where
  pub name : List ℕ
  pub conditions : List (String × String)

-- What a reconcile is given. `digest` prints four bytes of SHA-256 and `sha256` all of it; `set_owner` is
-- SetControllerReference; `probe` lists the containers of the Job's pods, uncached.
pub record GatewayCluster : Type 0 where
  pub library : StatusConditions
  pub digest : List ℕ → List ℕ
  pub sha256 : List ℕ → List ℕ
  pub get_secret : String → Result ApiError SecretData
  pub list_jobs : List ℕ → Result ApiError (List Job)
  pub get_job : List ℕ → Result ApiError Job
  pub set_owner : Option Message
  pub create_job : Option ApiError
  pub probe : List ℕ → Result ApiError (List ProbeContainer)
  pub patch_error : Option ApiError

-- What a reconcile does: the Jobs it asks to delete and to create, the Gateway whose status it patches,
-- and its reply.
pub record GatewayEffects : Type 0 where
  pub deleted_jobs : List (List ℕ)
  pub created_job : Option (List ℕ)
  pub patched : Option Gateway
  pub reply : Reply

-- `normalizeProvider`
unfoldable pub normalize_provider : List ℕ → List ℕ
unfolding lower
normalize_provider provider = map (λ c. if eqb c b'-' then b'_' else c) (lower provider)

-- `hasModelsProbe`
unfoldable pub has_models_probe : List ℕ → Bool
unfolding normalize_provider is_among
has_models_probe provider =
    not (is_among (normalize_provider provider) ("aws_bedrock" ∷ "gcp_vertex_ai" ∷ []))

-- `isTerminalReadyReason`
unfoldable pub is_terminal_ready_reason : String → Bool
is_terminal_ready_reason reason =
    reason == "ConnectionVerified"
    || reason == "ConnectionFailed"
    || reason == "AuthenticationFailed"
    || reason == "EndpointUnreachable"
    || reason == "VerificationSkipped"

-- `isJobComplete`
unfoldable pub is_job_complete : List (String × String) → Bool
is_job_complete [] = false
is_job_complete ((kind, status) ∷ rest) =
    (kind == "Complete" || kind == "Failed") && status == "True" || is_job_complete rest

-- `isJobSucceeded`
unfoldable pub is_job_succeeded : List (String × String) → Bool
is_job_succeeded [] = false
is_job_succeeded ((kind, status) ∷ rest) =
    kind == "Complete" && status == "True" || is_job_succeeded rest

-- the message of the verify container that comes first, else the last other one
unfoldable pub diagnostic_of : List ℕ → List ProbeContainer → List ℕ
unfolding trim_space
diagnostic_of fallback [] = fallback
diagnostic_of fallback (c ∷ rest) = elim c.terminated [
  | none ↦ diagnostic_of fallback rest
  | some raw ↦ elim (is_nil (trim_space raw)) [
    | true ↦ diagnostic_of fallback rest
    | false ↦ elim (c.name == "verify") [
      | true ↦ trim_space raw
      | false ↦ diagnostic_of (trim_space raw) rest
    ]
  ]
]

-- `verificationDiagnostic`
unfoldable pub verification_diagnostic : Result ApiError (List ProbeContainer) → List ℕ
unfolding diagnostic_of
verification_diagnostic (err e) = []
verification_diagnostic (ok containers) = diagnostic_of [] containers

-- `diagValue`
unfoldable pub diag_value : String → List (List ℕ) → List ℕ
unfolding trim_prefix has_prefix
diag_value key [] = []
diag_value key (f ∷ rest) =
    let later = diag_value key rest in
    let prefix = codes key ++ codes "=" in
    if has_prefix f prefix then trim_prefix f prefix else later

-- `curlErrorPhrase`
unfoldable pub curl_error_phrase : List ℕ → Message
unfolding equal_texts
curl_error_phrase rc =
    if equal_texts rc (codes "6")
    then text "curl exit 6: could not resolve host"
    else if equal_texts rc (codes "7")
    then text "curl exit 7: connection refused"
    else if equal_texts rc (codes "28")
    then text "curl exit 28: timed out"
    else if is_nil rc
    then text "connection error"
    else format1 "curl exit %s: transport error" (runes rc)

-- the first word of the diagnostic
starts_with : String → List (List ℕ) → Bool
unfolding equal_texts
starts_with word [] = false
starts_with word (f ∷ rest) = equal_texts f (codes word)

reached : Message → Bool → List ℕ → String × Message
reached endpoint quoted code = (
  "ConnectionVerified",
  if quoted
      then format2 "Endpoint %s is reachable (HTTP %s)" endpoint (runes code)
      else format1 "Endpoint %s is reachable" endpoint,
)

not_reached : Message → List ℕ → List (List ℕ) → List ℕ → String × Message
unfolding starts_with curl_error_phrase diag_value
not_reached endpoint job words code =
    if starts_with "auth" words && not (is_nil code)
    then (
      "AuthenticationFailed",
      format2 "Endpoint %s/v1/models returned HTTP %s - check the credential secret's API key"
          endpoint (runes code),
    )
    else if starts_with "http" words && not (is_nil code)
    then (
      "ConnectionFailed",
      format2 "Endpoint %s/v1/models returned HTTP %s" endpoint (runes code),
    )
    else if starts_with "unreachable" words
    then (
      "EndpointUnreachable",
      format2 "Endpoint %s is unreachable (%s)" endpoint
          (curl_error_phrase (diag_value "rc" words)),
    )
    else ("ConnectionFailed", format1 "Verification Job %q failed" (runes job))

-- `gatewayVerifyReason`
unfoldable pub gateway_verify_reason : List ℕ → Message → List ℕ → Bool → String × Message
unfolding reached not_reached fields starts_with diag_value
gateway_verify_reason diag endpoint job succeeded =
    let words = fields diag in
    let code = diag_value "code" words in
    if succeeded
    then reached endpoint (starts_with "ok" words && not (is_nil code)) code
    else not_reached endpoint job words code

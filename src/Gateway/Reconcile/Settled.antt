-- ===== src/Gateway/Reconcile/Settled.antt =====
-- A Gateway with a verdict is left alone.
use agentic_controller.Prelude.{
  ℕ, ◌≡◌, refl, sym, ap, ◌∙◌, true, false, not, ◌&&◌, Option, some, List, [], ◌∷◌, Result, ok, err,
  ◌==◌, arith, Bool-cases, inl, inr, none_some, some_inj,
}
use agentic_controller.Text.Split.{is_nil}
use agentic_controller.Text.{equal_texts}
use agentic_controller.Api.{Condition, ApiError, done}
use agentic_controller.Gateway.Names.{SecretData, secret_value}
use agentic_controller.Gateway.{Gateway, GatewayCluster, has_models_probe, is_terminal_ready_reason}
use agentic_controller.Gateway.Reconcile.{
  nothing, credential_hash, is_settled, reason_of, verify, is_missing, with_secret,
  reconcile_gateway,
}
use agentic_controller.Gateway.Reconcile.Honest.{
  current_hash, IsHonest, Patched, reconcile_gateway-Writes,
}
use mathlib.Core.Path.{subst}

equal_texts_refl : (s : List ℕ) → equal_texts s s ≡ true
unfolding equal_texts
equal_texts_refl [] = refl
equal_texts_refl (c ∷ s) = ground (arith, equal_texts_refl s)

module _ (c : GatewayCluster) (g : Gateway) where
  verify-settled :
      (hash : List ℕ) (ready : Option Condition)
      → is_settled c g hash ready ≡ true
      → is_terminal_ready_reason (reason_of c g ready) ≡ true
      → (has_models_probe g.provider ≡ false
          → (reason_of c g ready == "VerificationSkipped") ≡ true)
      → verify c g hash ready ≡ nothing done
  unfolding verify
  verify-settled hash ready s t u = elim (Bool-cases (has_models_probe g.provider)) [
    | inl e ↦ rw (e, s, t) refl
    | inr e ↦ rw (e, s, u e) refl
  ]

  -- the Secret holds a credential, so that it is looked at
  with_secret-current :
      (r : Result ApiError SecretData) (hash : List ℕ)
      → current_hash c g r ≡ some hash
      → with_secret c g r ≡ verify c g hash (c.library.find g.status.conditions "Ready")
  unfolding with_secret
  with_secret-current (err e) hash h = none_some h
  with_secret-current (ok entries) hash h =
      elim (Bool-cases
        (not (g.secret_key == "") && is_missing (secret_value g.secret_key entries))) [
          | inl k ↦ none_some (rw k at h)
          | inr k ↦ elim (Bool-cases (g.secret_key == "" && is_nil entries)) [
            | inl n ↦ none_some (rw (k, n) at h)
            | inr n ↦
                let same : credential_hash c g entries ≡ hash = some_inj (rw (k, n) at h) in
                rw (k, n) (ap (λ d. verify c g d (c.library.find g.status.conditions "Ready")) same)
          ]
        ]

  IsHonest-settled :
      (h : IsHonest c g)
      → is_terminal_ready_reason h.ready.reason ≡ true
      → reconcile_gateway c g ≡ nothing done
  unfolding reconcile_gateway
  IsHonest-settled h t =
      with_secret-current (c.get_secret g.secret_name) g.status.verified_credential_hash
        (h.credential t)
      ∙ ap (verify c g g.status.verified_credential_hash) h.found
      ∙ verify-settled g.status.verified_credential_hash (some h.ready)
          (ground (arith, h.generation, equal_texts_refl g.status.verified_credential_hash)) t
          (h.unprobed t)

-- Once a reconcile has written a verdict, no further one touches the Gateway, its Jobs or its status, as
-- long as the Gateway, its credential and what the cluster answers stay as they are.
pub reconcile_gateway-settled :
    (c : GatewayCluster) (g h : Gateway) (ready : Condition)
    → (reconcile_gateway c g).patched ≡ some h
    → c.library.find h.status.conditions "Ready" ≡ some ready
    → is_terminal_ready_reason ready.reason ≡ true
    → reconcile_gateway c h ≡ nothing done
reconcile_gateway-settled c g h ready e f t =
    let honest : IsHonest c h = (subst (Patched c g) e (reconcile_gateway-Writes c g).honest).0 in
    let same : honest.ready ≡ ready = some_inj (sym honest.found ∙ f) in
    IsHonest-settled c h honest (rw same t)

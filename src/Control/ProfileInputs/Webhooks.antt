-- ===== src/Control/ProfileInputs/Webhooks.antt =====
-- apps/api/src/index.ts, normalizeAlertConfig: the webhook targets of a payload that writes back what a
-- response showed.
use webperf_selfhosted.Base.{
  ℕ, zero, suc, ◌+◌, String, ◌≡◌, refl, ap, ◌∙◌, Bool, true, false, Option, none, some, List, [],
  ◌∷◌, map, length, leb, get_elem?, All, if◌then◌else◌, ◌=ₛ◌, arith,
}
use webperf_selfhosted.Control.Types.{WebhookTarget, WebhookTargetInput, done, thrown, invalid}
use webperf_selfhosted.Control.Inputs.{Platform, redacted_value, require_trimmed_text}
use webperf_selfhosted.Control.ProfileInputs.{
  resolve_masked_webhook_secret, merge_webhook_target, merge_webhook_targets,
}

-- A target as a response shows it, as far as a payload has its fields; its URL has no query, which would
-- be hidden too. A missing secret is shown as a secret is.
abbrev pub shown_target : WebhookTarget → WebhookTargetInput
shown_target target = record {
  name = target.name;
  url = target.url;
  enabled = some target.enabled;
  secret = some redacted_value;
}

-- The name and the URL are stored as the handler leaves them.
pub record IsTrimmed (platform : Platform) (target : WebhookTarget) : Type 0 where
  pub name : platform.trim target.name ≡ target.name
  pub named : (target.name =ₛ "") ≡ false
  pub url : platform.trim target.url ≡ target.url

abbrev pub is_secret : Option String → Bool
is_secret none = false
is_secret (some secret) = if secret =ₛ "" then false else true

-- Each target of the payload with the id and the secret of the stored target at its index.
unfoldable pub taken : List WebhookTarget → List WebhookTarget → List WebhookTarget
taken [] existing = []
taken (t ∷ ts) [] = []
taken (t ∷ ts) (e ∷ existing) = record t { id = e.id; secret = e.secret } ∷ taken ts existing

module _ (platform : Platform) where
  resolve_masked :
      (secret : Option String)
      → is_secret secret ≡ true
      → resolve_masked_webhook_secret platform (some redacted_value) secret ≡ done secret
  unfolding resolve_masked_webhook_secret
  resolve_masked none h = absurd (cc)
  resolve_masked (some secret) h = ground (arith, h)

  resolve_missing :
      (secret : Option String)
      → is_secret secret ≡ false
      → resolve_masked_webhook_secret platform (some redacted_value) secret ≡ thrown invalid
  unfolding resolve_masked_webhook_secret
  resolve_missing none h = refl
  resolve_missing (some secret) h = ground (arith, h)

  merge_shown :
      (index : ℕ) (t e : WebhookTarget)
      → IsTrimmed platform t
      → is_secret e.secret ≡ true
      → merge_webhook_target platform index (shown_target t) (some e)
        ≡ done (record t { id = e.id; secret = e.secret })
  unfolding merge_webhook_target require_trimmed_text
  merge_shown index t e clean h =
      rw (clean.name, clean.named, clean.url, resolve_masked e.secret h) refl

  merge_all_shown :
      (index : ℕ) (ts es all : List WebhookTarget)
      → All (IsTrimmed platform) ts
      → All (λ (e : WebhookTarget). is_secret e.secret ≡ true) es
      → leb (length ts) (length es) ≡ true
      → ((j : ℕ) → get_elem? all (index + j) ≡ get_elem? es j)
      → merge_webhook_targets platform index (map shown_target ts) all ≡ done (taken ts es)
  unfolding merge_webhook_targets taken
  merge_all_shown index [] es all clean secrets fits at = refl
  merge_all_shown index (t ∷ ts) [] all clean secrets fits at = absurd (grind arith)
  merge_all_shown index (t ∷ ts) (e ∷ es) all clean secrets fits at =
      let here : index ≡ index + 0 = omega arith in
      let next : (j : ℕ) → suc index + j ≡ index + suc j = λ j. omega arith in
      let found = ap (get_elem? all) here ∙ at 0 in
      let rest =
        merge_all_shown (suc index) ts es all clean.1 secrets.1 (grind arith)
          (λ j. ap (get_elem? all) (next j) ∙ at (suc j)) in
      rw (found, merge_shown index t e clean.0 secrets.0, rest) refl

  -- A payload that shows some targets, at most as many as are stored, all of these with a secret, is
  -- accepted: each target gets the id and the secret of the stored target at its index, and keeps
  -- its own name, URL and switch.
  pub merge_webhook_targets_shown :
      (ts existing : List WebhookTarget)
      → All (IsTrimmed platform) ts
      → All (λ (e : WebhookTarget). is_secret e.secret ≡ true) existing
      → leb (length ts) (length existing) ≡ true
      → merge_webhook_targets platform zero (map shown_target ts) existing
        ≡ done (taken ts existing)
  merge_webhook_targets_shown ts existing clean secrets fits =
      merge_all_shown zero ts existing existing clean secrets fits
        (λ j. ap (get_elem? existing) (omega arith))

  -- A payload that leaves out the first of two stored targets and shows the second as it is, is accepted,
  -- and what is stored under the second's name and URL has the id and the secret of the first.
  pub merge_webhook_targets_shifted :
      (first second : WebhookTarget)
      → IsTrimmed platform second
      → is_secret first.secret ≡ true
      → is_secret second.secret ≡ true
      → merge_webhook_targets platform zero (shown_target second ∷ []) (first ∷ second ∷ [])
        ≡ done (record second { id = first.id; secret = first.secret } ∷ [])
  unfolding taken
  merge_webhook_targets_shifted first second clean h k =
      merge_webhook_targets_shown (second ∷ []) (first ∷ second ∷ []) (clean, tt) (h, (k, tt)) refl

  -- A payload that writes back stored targets as they are shown, the first of them without a secret, is
  -- refused.
  pub merge_webhook_targets_without_secret :
      (first : WebhookTarget) (others : List WebhookTarget)
      → IsTrimmed platform first
      → is_secret first.secret ≡ false
      → merge_webhook_targets platform zero (map shown_target (first ∷ others)) (first ∷ others)
        ≡ thrown invalid
  unfolding merge_webhook_targets merge_webhook_target require_trimmed_text
  merge_webhook_targets_without_secret first others clean h =
      rw (clean.name, clean.named, resolve_missing first.secret h) refl

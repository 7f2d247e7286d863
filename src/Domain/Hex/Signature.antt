-- ===== src/Domain/Hex/Signature.antt =====
-- What verifyHmacSha256 of packages/domain-core/src/index.ts accepts.
use webperf_selfhosted.Base.{
  ℕ, ◌*◌, ◌≡◌, ◌↔◌, refl, sym, ◌∙◌, ap, Bool, true, false, not, ◌&&◌, Option, none, some, List,
  length, every, ◌==◌, if◌then◌else◌, arith, same_text, [], ◌∷◌,
}
use webperf_selfhosted.Domain.Hex.{
  bytes_to_hex, is_hex_digit, hex_to_bytes, create_hmac_sha256, verify_hmac_sha256, hex_or,
  or_false, verify_bytes,
}
use webperf_selfhosted.Domain.Hex.RoundTrip.{
  is_byte, length-bytes_to_hex, hex_digits-bytes_to_hex, hex_to_bytes-bytes_to_hex,
  bytes_to_hex-hex_to_bytes,
}

same_text_refl : (s : List ℕ) → same_text s s ≡ true
unfolding same_text
same_text_refl [] = refl
same_text_refl (c ∷ cs) = ground (arith, same_text_refl cs)

same_text→≡ : (s t : List ℕ) → same_text s t ≡ true → s ≡ t
unfolding same_text
same_text→≡ [] [] h = refl
same_text→≡ [] (d ∷ ds) h = absurd (cc)
same_text→≡ (c ∷ cs) [] h = absurd (cc)
same_text→≡ (c ∷ cs) (d ∷ ds) h = grind (arith, h, same_text→≡ cs ds)

guarded : (g b : Bool) → (if not g then false else b) ≡ true → b ≡ true
guarded g b h = ground (arith, h)

-- Whether a verification succeeds, by what signing yields.
abbrev pub matches : List ℕ → Option (List ℕ) → Option Bool
matches bytes none = none
matches bytes (some digest) = some (same_text bytes digest)

abbrev pub IsSha256 : List ℕ → Type 0
IsSha256 digest = (length digest ≡ 32) × (every is_byte digest ≡ true)

module _ (sign : List ℕ → List ℕ → Option (List ℕ))
    (verify : List ℕ → List ℕ → List ℕ → Option Bool)
    (sign-IsSha256 : (secret payload digest : List ℕ)
      → sign secret payload ≡ some digest
      → IsSha256 digest)
    (verify-sign : (secret bytes payload : List ℕ)
      → verify secret bytes payload ≡ matches bytes (sign secret payload)) where
  accepts_digest :
      (secret payload digest : List ℕ)
      → sign secret payload ≡ some digest
      → verify_hmac_sha256 verify secret payload (bytes_to_hex digest) ≡ true
  unfolding verify_hmac_sha256
  accepts_digest secret payload digest h =
      let digest_bytes = sign-IsSha256 secret payload digest h in
      let count = length-bytes_to_hex digest in
      let units : length (bytes_to_hex digest) ≡ 64 = count ∙ ap (λ n. 2 * n) (digest_bytes.0) in
      let digits = hex_digits-bytes_to_hex digest (digest_bytes.1) in
      let read = hex_to_bytes-bytes_to_hex digest (digest_bytes.1) in
      let answer : verify secret digest payload ≡ some true =
        verify-sign secret digest payload
        ∙ ap (matches digest) h
        ∙ ap some (same_text_refl digest) in
      rw units (rw digits (rw read (ap or_false answer)))

  created_verifies :
      (secret payload signature : List ℕ) (signed : Option (List ℕ))
      → sign secret payload ≡ signed
      → hex_or signed ≡ some signature
      → verify_hmac_sha256 verify secret payload signature ≡ true
  created_verifies secret payload signature none e h = absurd (cc)
  created_verifies secret payload signature (some digest) e h =
      let same : bytes_to_hex digest ≡ signature = cc in
      rw (sym same) (accepts_digest secret payload digest e)

  digest_of_verified :
      (secret payload bytes : List ℕ) (signed : Option (List ℕ))
      → sign secret payload ≡ signed
      → or_false (matches bytes signed) ≡ true
      → sign secret payload ≡ some bytes
  digest_of_verified secret payload bytes none e h = absurd (cc)
  digest_of_verified secret payload bytes (some digest) e h =
      e ∙ ap some (sym (same_text→≡ bytes digest h))

  verified_is_created :
      (secret payload signature : List ℕ) (read : Option (List ℕ))
      → hex_to_bytes signature ≡ read
      → verify_bytes verify secret payload read ≡ true
      → create_hmac_sha256 sign secret payload ≡ some signature
  unfolding create_hmac_sha256
  verified_is_created secret payload signature none e h = absurd (cc)
  verified_is_created secret payload signature (some bytes) e h =
      let matched = ap or_false (sym (verify-sign secret bytes payload)) ∙ h in
      let signed = digest_of_verified secret payload bytes (sign secret payload) refl matched in
      ap hex_or signed ∙ ap some (bytes_to_hex-hex_to_bytes signature bytes e)

  verified_bytes :
      (secret payload signature : List ℕ)
      → verify_hmac_sha256 verify secret payload signature ≡ true
      → verify_bytes verify secret payload (hex_to_bytes signature) ≡ true
  unfolding verify_hmac_sha256
  verified_bytes secret payload signature h =
      guarded (length signature == 64 && every is_hex_digit signature)
        (verify_bytes verify secret payload (hex_to_bytes signature)) h

  -- If signing yields 32 bytes whenever it yields some, and verifying tells whether the given bytes are
  -- those that signing yields, a signature is accepted exactly if it is the one created for the payload.
  pub verify_hmac_sha256-create_hmac_sha256 :
      (secret payload signature : List ℕ)
      → (verify_hmac_sha256 verify secret payload signature ≡ true)
        ↔ (create_hmac_sha256 sign secret payload ≡ some signature)
  unfolding create_hmac_sha256
  verify_hmac_sha256-create_hmac_sha256 secret payload signature = (
    λ h.
        verified_is_created secret payload signature (hex_to_bytes signature) refl
          (verified_bytes secret payload signature h),
    λ h. created_verifies secret payload signature (sign secret payload) refl h,
  )

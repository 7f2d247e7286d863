-- ===== src/Tests/Codec.antt =====
-- Runs of the hexadecimal codec and the keyed hashes of packages/domain-core/src/index.ts, with a
-- stand-in for the hash, and the theorems at sample data.
use webperf_selfhosted.Base.{
  ℕ, zero, suc, sym, ◌≡◌, ◌↔◌, refl, Bool, true, Option, none, some, List, [], ◌∷◌, codes,
}
use webperf_selfhosted.Domain.Hex.{
  bytes_to_hex, parse_pairs, hex_to_bytes, create_hmac_sha256, verify_hmac_sha256,
}
use webperf_selfhosted.Domain.Hex.Signature.{
  IsSha256, matches, verify_hmac_sha256-create_hmac_sha256,
}

abbrev sample_bytes : List ℕ
sample_bytes = 0 ∷ 10 ∷ 171 ∷ 255 ∷ []

written_bytes : bytes_to_hex sample_bytes ≡ codes "000aabff"
unfolding bytes_to_hex
written_bytes = refl

read_upper_case : hex_to_bytes (codes "0A") ≡ none
unfolding hex_to_bytes
read_upper_case = refl

read_bytes : hex_to_bytes (codes "000aabff") ≡ some sample_bytes
unfolding hex_to_bytes parse_pairs
read_bytes = refl

abbrev copies : ℕ → ℕ → List ℕ
copies zero b = []
copies (suc n) b = b ∷ copies n b

-- A stand-in that yields 32 bytes, which tell only whether the payload is empty, and fails without a
-- secret, as the import of an empty key does.
abbrev sample_sign : List ℕ → List ℕ → Option (List ℕ)
sample_sign [] payload = none
sample_sign (k ∷ ks) [] = some (copies 32 0)
sample_sign (k ∷ ks) (c ∷ cs) = some (copies 32 173)

abbrev sample_verify : List ℕ → List ℕ → List ℕ → Option Bool
sample_verify secret bytes payload = matches bytes (sample_sign secret payload)

sample_sign-IsSha256 :
    (secret payload digest : List ℕ) → sample_sign secret payload ≡ some digest → IsSha256 digest
sample_sign-IsSha256 [] payload digest h = absurd (cc)
sample_sign-IsSha256 (k ∷ ks) [] digest h =
    let same : copies 32 0 ≡ digest = cc in rw (sym same) (refl, refl)
sample_sign-IsSha256 (k ∷ ks) (c ∷ cs) digest h =
    let same : copies 32 173 ≡ digest = cc in rw (sym same) (refl, refl)

verify_hmac_sha256-create_hmac_sha256_example :
    (verify_hmac_sha256 sample_verify (codes "key") (codes "payload") (bytes_to_hex (copies 32 173))
      ≡ true)
    ↔ (create_hmac_sha256 sample_sign (codes "key") (codes "payload")
        ≡ some (bytes_to_hex (copies 32 173)))
verify_hmac_sha256-create_hmac_sha256_example =
    verify_hmac_sha256-create_hmac_sha256 sample_sign sample_verify sample_sign-IsSha256
      (λ secret bytes payload. refl) (codes "key") (codes "payload") (bytes_to_hex (copies 32 173))

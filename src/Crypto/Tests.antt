-- ===== src/Crypto/Tests.antt =====
-- Tests of the password envelope.
use t_sync_sdk_go.Base.{◌≤◌, ◌≡◌, refl, [], ◌∷◌, length}
use t_sync_sdk_go.Base.Bytes.{Bytes, codes}
use t_sync_sdk_go.Errors.{ok}
use t_sync_sdk_go.Crypto.{
  byte_at, Draws, encrypt_password, decrypt_password, generate_zip_crypto_password,
}
use t_sync_sdk_go.Crypto.Envelope.{decrypt-encrypt}
use t_sync_sdk_go.Sample.{sample_box, sample_box-Opens}

abbrev key_bytes : Bytes
key_bytes = codes "0123456789abcdef0123456789abcdef"

abbrev nonce_bytes : Bytes
nonce_bytes = codes "0123456789abcdef01234567"

first_letters : generate_zip_crypto_password (ok (0 ∷ 1 ∷ 76 ∷ [])) ≡ ok (codes "aba")
unfolding generate_zip_crypto_password byte_at
first_letters = refl

decrypt-encrypt_example :
    let draws : Draws = record { key_pair = ok (key_bytes, key_bytes); nonce = ok nonce_bytes } in
    (sealed : Bytes) × (encrypt_password sample_box draws (codes "secret") key_bytes
      ≡ ok (key_bytes, sealed))
    × (40 ≤ length sealed)
    × (decrypt_password sample_box sealed key_bytes key_bytes ≡ ok (codes "secret"))
decrypt-encrypt_example =
    decrypt-encrypt sample_box (codes "secret") key_bytes key_bytes key_bytes key_bytes nonce_bytes
      (sample_box-Opens key_bytes key_bytes key_bytes key_bytes) refl refl refl refl

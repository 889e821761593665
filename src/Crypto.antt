-- ===== src/Crypto.antt =====
-- tsync/crypto.go: the random ZIP password and its NaCl box envelope.
pub mod Envelope
mod Tests
use t_sync_sdk_go.Base.{
  ℕ, zero, suc, ◌+◌, ◌%◌, ◌≡◌, Bool, true, false, not, Option, none, some, List, [], ◌∷◌, ◌++◌,
  if◌then◌else◌, eqb, ltb, length, take, drop, map,
}
use t_sync_sdk_go.Base.Bytes.{Bytes, codes}
use t_sync_sdk_go.Errors.{
  GoError, sentinel, wrap, plain, invalid_options, decryption_failed, Result, ok, err, fail_if,
  ◌>>=◌, ◌>>◌,
}

abbrev pub charset : Bytes
charset = codes "abcdefghijklmnopqrstuvwxyzABCDEFGHIJKLMNOPQRSTUVWXYZ0123456789!@#$%^&*()_+-="

-- `s[i]`, and 0 beyond the end, where Go would panic.
unfoldable pub byte_at : Bytes → ℕ → ℕ
byte_at [] i = 0
byte_at (c ∷ s) zero = c
byte_at (c ∷ s) (suc i) = byte_at s i

-- `GenerateZipCryptoPassword` from the bytes of the random source, if that does not fail.
unfoldable pub generate_zip_crypto_password : Result Bytes → Result Bytes
generate_zip_crypto_password random = do
  bytes ← random
  ok (map (λ b. byte_at charset (b % length charset)) bytes)

-- What `EncryptPassword` draws: a key pair (public, private) and a nonce.
pub record Draws : Type 0 where
  pub key_pair : Result (Bytes × Bytes)
  pub nonce : Result Bytes

-- `box.Seal` without its prefix, of a message with a nonce, the peer's public key and a private
-- key; and `box.Open`, whose result is absent when the box does not open.
pub record Box : Type 0 where
  pub seal : Bytes → Bytes → Bytes → Bytes → Bytes
  pub unseal : Bytes → Bytes → Bytes → Bytes → Option Bytes

-- `EncryptPassword`: the ephemeral public key, and the nonce followed by the sealed password.
unfoldable pub encrypt_password : Box → Draws → Bytes → Bytes → Result (Bytes × Bytes)
encrypt_password box draws password vm_pub_key = do
  fail_if (not (eqb (length vm_pub_key) 32)) (wrap (sentinel invalid_options))
  pair ← draws.key_pair
  nonce ← draws.nonce
  ok (pair.0, nonce ++ box.seal password nonce vm_pub_key pair.1)

abbrev opened : Option Bytes → Result Bytes
opened none = err (wrap (sentinel decryption_failed))
opened (some password) = ok password

-- `DecryptPassword`
unfoldable pub decrypt_password : Box → Bytes → Bytes → Bytes → Result Bytes
decrypt_password box encrypted eph_pub_key vm_priv_key = do
  fail_if (not (eqb (length eph_pub_key) 32)) (wrap (sentinel decryption_failed))
  fail_if (not (eqb (length vm_priv_key) 32)) (wrap (sentinel invalid_options))
  fail_if (ltb (length encrypted) (24 + 16)) (wrap (sentinel decryption_failed))
  opened (box.unseal (drop 24 encrypted) (take 24 encrypted) eph_pub_key vm_priv_key)

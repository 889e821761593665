-- ===== src/Crypto/Envelope.antt =====
-- The password envelope of tsync/crypto.go.
use t_sync_sdk_go.Base.{
  ℕ, zero, suc, ◌%◌, ◌≤◌, ◌<◌, ◌≡◌, refl, ap, Bool, true, false, some, [], ◌∷◌, ◌++◌, arith, nat_eq,
  if◌then◌else◌, contains, length, length-append, take, drop, map,
}
use t_sync_sdk_go.Base.Bytes.{Bytes}
use t_sync_sdk_go.Errors.{ok}
use t_sync_sdk_go.Crypto.{charset, byte_at, Draws, Box, encrypt_password, decrypt_password}

take-append : (n : ℕ) (s t : Bytes) → length s ≡ n → take n (s ++ t) ≡ s
take-append zero [] t h = refl
take-append zero (x ∷ s) t h = absurd (omega arith)
take-append (suc n) [] t h = absurd (omega arith)
take-append (suc n) (x ∷ s) t h = ap (λ r. x ∷ r) (take-append n s t (omega arith))

drop-append : (n : ℕ) (s t : Bytes) → length s ≡ n → drop n (s ++ t) ≡ t
drop-append zero [] t h = refl
drop-append zero (x ∷ s) t h = absurd (omega arith)
drop-append (suc n) [] t h = absurd (omega arith)
drop-append (suc n) (x ∷ s) t h = drop-append n s t (omega arith)

-- What NaCl box promises of two key pairs: a box sealed for the VM with the ephemeral private key
-- opens with the VM's private key and the ephemeral public key, and carries a 16-byte tag.
pub record Opens (box : Box) (vm_pub vm_priv eph_pub eph_priv : Bytes) : Type 0 where
  pub opens :
      (message nonce : Bytes)
      → box.unseal (box.seal message nonce vm_pub eph_priv) nonce eph_pub vm_priv ≡ some message
  pub tagged : (message nonce : Bytes) → 16 ≤ length (box.seal message nonce vm_pub eph_priv)

-- A password encrypted for a VM key pair is decrypted by its private key, whatever the password,
-- when the keys have 32 bytes and the nonce 24.
pub decrypt-encrypt :
    (box : Box) (password vm_pub vm_priv eph_pub eph_priv nonce : Bytes)
    → Opens box vm_pub vm_priv eph_pub eph_priv
    → length vm_pub ≡ 32
    → length vm_priv ≡ 32
    → length eph_pub ≡ 32
    → length nonce ≡ 24
    → let draws : Draws = record { key_pair = ok (eph_pub, eph_priv); nonce = ok nonce } in
      (sealed : Bytes) × (encrypt_password box draws password vm_pub ≡ ok (eph_pub, sealed))
      × (40 ≤ length sealed)
      × (decrypt_password box sealed eph_pub vm_priv ≡ ok password)
unfolding encrypt_password decrypt_password
decrypt-encrypt box password vm_pub vm_priv eph_pub eph_priv nonce o a b c d =
    let sealed = box.seal password nonce vm_pub eph_priv in
    let long = length-append nonce sealed in
    let tag = o.tagged password nonce in
    (
      nonce ++ sealed,
      ground arith,
      omega arith,
      ground (
        arith,
        long,
        tag,
        take-append 24 nonce sealed d,
        drop-append 24 nonce sealed d,
        o.opens password nonce,
      ),
    )

byte_at-contains : (s : Bytes) (i : ℕ) → i < length s → contains s (byte_at s i) ≡ true
unfolding byte_at
byte_at-contains [] i h = absurd (omega arith)
byte_at-contains (c ∷ s) zero h = ground arith
byte_at-contains (c ∷ s) (suc i) h = ground (arith, byte_at-contains s i (omega arith))

unfoldable pub all_in : Bytes → Bytes → Bool
all_in set [] = true
all_in set (c ∷ s) = if contains set c then all_in set s else false

all_in-password :
    (bytes : Bytes) → all_in charset (map (λ b. byte_at charset (b % length charset)) bytes) ≡ true
unfolding all_in
all_in-password [] = refl
all_in-password (b ∷ bytes) =
    ground
      (arith, byte_at-contains charset (b % length charset) (omega arith), all_in-password bytes)

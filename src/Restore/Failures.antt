-- ===== src/Restore/Failures.antt =====
-- Which failures of a part a restore may skip.
use t_sync_sdk_go.Base.{
  ◌≡◌, refl, ap, ◌∙◌, ◌⊎◌, inl, inr, true, ◌||◌, not, Option, none, some, [], arith, if◌then◌else◌,
  Bool-cases, Option-cases, bytes_eq, length,
}
use t_sync_sdk_go.Base.Bytes.{Bytes}
use t_sync_sdk_go.Errors.{
  GoError, is, canceled, deadline_exceeded, zip_password, Result, ok, err, Result-cases,
  Sentinel-discrete,
}
use t_sync_sdk_go.Metadata.{FileRecord}
use t_sync_sdk_go.Crypto.{
  generate_zip_crypto_password, Box, Draws, encrypt_password, decrypt_password,
}
use t_sync_sdk_go.Crypto.Envelope.{Opens, decrypt-encrypt}
use t_sync_sdk_go.Base.Dict
use t_sync_sdk_go.Base.Dict.{Dict}
use t_sync_sdk_go.Backup.Secrets.{Secrets, own_secrets, first_key}
use t_sync_sdk_go.Backup.Options.{is_set}
use t_sync_sdk_go.Restore.{is_skippable_restore_error, decrypt_part_password, classify_part_error}

-- A failure to read the store or to write the output is skipped only if the error underneath is one
-- that may be skipped by itself; any other failure to decode a part is skipped unless a
-- cancellation or a deadline is underneath.
pub classify_part_error-skips :
    (e : GoError) (src dst : Option GoError)
    → ((src ≡ none × dst ≡ none)
        → is_skippable_restore_error (classify_part_error e src dst)
          ≡ not (is e canceled || is e deadline_exceeded))
      × (((x : GoError) × (src ≡ some x)) ⊎ ((x : GoError) × (dst ≡ some x))
          → is_skippable_restore_error (classify_part_error e src dst)
            ≡ is_skippable_restore_error e)
unfolding classify_part_error is_skippable_restore_error is Sentinel-discrete
classify_part_error-skips e none none = (
  λ both_none. elim (Bool-cases (is e zip_password)) [
    | inl wrong ↦ rw (wrong, classify_part_error) (ground arith)
    | inr other ↦ rw (other, classify_part_error) (ground arith)
  ],
  λ either. elim either [ inl (x, h) ↦ absurd (ground arith) | inr (x, h) ↦ absurd (ground arith) ],
)
classify_part_error-skips e (some x) none = (λ (h, k). absurd (ground arith), λ either. refl)
classify_part_error-skips e src (some y) = (λ (h, k). absurd (ground arith), λ either. refl)

-- Every failure to get a part's password may be skipped.
pub decrypt_part_password-skips :
    (box : Box) (rec : FileRecord) (key : Bytes) (e : GoError)
    → decrypt_part_password box rec key ≡ err e
    → is_skippable_restore_error e ≡ true
unfolding decrypt_part_password decrypt_password is_skippable_restore_error is Sentinel-discrete
decrypt_part_password-skips box rec key e h = ground arith

abbrev pub drawing : Bytes → Bytes → Bytes → Draws
drawing eph_pub eph_priv nonce = record { key_pair = ok (eph_pub, eph_priv); nonce = ok nonce }

-- What `own_secrets` has made its result of.
own_secrets-made :
    (box : Box) (draws : Draws) (random : Result Bytes) (key_id : Bytes) (keys : Dict Bytes Bytes)
    (secrets : Secrets)
    → own_secrets box draws random key_id keys ≡ ok secrets
    → (pk : Bytes) × (pair : Bytes × Bytes) × (Dict.lookup secrets.key_id keys ≡ some pk)
      × (encrypt_password box draws secrets.clear_zip_pass pk ≡ ok pair)
      × (secrets.eph_pub_key ≡ pair.0)
      × (secrets.encrypted_zip_pass ≡ pair.1)
unfolding own_secrets
own_secrets-made box draws random key_id keys secrets made =
    let selected = if is_set key_id then key_id else first_key [] keys in
    elim (Option-cases (Dict.lookup selected keys)) [
      | inl l ↦ absurd (ground arith)
      | inr (pk, l) ↦ elim (Result-cases (generate_zip_crypto_password random)) [
        | inr (x, g) ↦ absurd (ground arith)
        | inl (clear, g) ↦ elim (Result-cases (encrypt_password box draws clear pk)) [
          | inr (x, e) ↦ absurd (ground arith)
          | inl (pair, e) ↦ (pk, pair, ground arith, ground arith, ground arith, ground arith)
        ]
      ]
    ]

-- The password that a backup pass has encrypted for a VM key pair comes back, from the record of
-- any part of the pass, with the VM's private key: so the part can be restored with it.
pub own_secrets-decrypts :
    (box : Box) (vm_pub vm_priv eph_pub eph_priv nonce : Bytes) (random : Result Bytes)
    (key_id : Bytes) (keys : Dict Bytes Bytes) (secrets : Secrets) (rec : FileRecord)
    → Opens box vm_pub vm_priv eph_pub eph_priv
    → length vm_pub ≡ 32
    → length vm_priv ≡ 32
    → length eph_pub ≡ 32
    → length nonce ≡ 24
    → own_secrets box (drawing eph_pub eph_priv nonce) random key_id keys ≡ ok secrets
    → Dict.lookup secrets.key_id keys ≡ some vm_pub
    → rec.encrypted_zip_password ≡ secrets.encrypted_zip_pass
    → rec.ephemeral_public_key ≡ secrets.eph_pub_key
    → decrypt_part_password box rec vm_priv ≡ ok secrets.clear_zip_pass
unfolding decrypt_part_password
own_secrets-decrypts box vm_pub vm_priv eph_pub eph_priv nonce random key_id keys secrets rec opens
      l1 l2 l3 l4 made at same_pass same_key =
    let (pk, pair, at', e, same_eph, same_enc) =
      own_secrets-made box (drawing eph_pub eph_priv nonce) random key_id keys secrets made in
    let same_pk : pk ≡ vm_pub = ground arith in
    let (sealed, e', long, back) =
      decrypt-encrypt box secrets.clear_zip_pass vm_pub vm_priv eph_pub eph_priv nonce opens l1 l2
        l3 l4 in
    let same_pair : pair ≡ (eph_pub, sealed) = ground (
      arith,
      ap (encrypt_password box (drawing eph_pub eph_priv nonce) secrets.clear_zip_pass) same_pk,
    ) in
    let of_sealed : rec.encrypted_zip_password ≡ sealed =
      same_pass ∙ same_enc ∙ ap (λ z. z.1) same_pair in
    let of_eph : rec.ephemeral_public_key ≡ eph_pub =
      same_key ∙ same_eph ∙ ap (λ z. z.0) same_pair in
    rw (of_sealed, of_eph) (ground (arith, back))

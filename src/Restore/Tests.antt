-- ===== src/Restore/Tests.antt =====
-- Tests of the restore.
use t_sync_sdk_go.Base.{◌≡◌, refl, some, [], ◌∷◌, ◌++◌, bytes_eq, Bytes-discrete}
use t_sync_sdk_go.Base.Bytes.{Bytes, codes, less, trim_slash}
use t_sync_sdk_go.Base.Dict
use t_sync_sdk_go.Base.Dict.{Dict}
use t_sync_sdk_go.Errors.{GoError, sentinel, wrap, private_key_required, ok, err}
use t_sync_sdk_go.Metadata.{FileRecord}
use t_sync_sdk_go.Crypto.{generate_zip_crypto_password, encrypt_password, byte_at}
use t_sync_sdk_go.Backup.Secrets.{Secrets, own_secrets, first_key}
use t_sync_sdk_go.Restore.{decrypt_part_password, targets}
use t_sync_sdk_go.Restore.Failures.{drawing, own_secrets-decrypts}
use t_sync_sdk_go.Sample.{sample_box, sample_box-Opens, record_one}

abbrev vm_key : Bytes
vm_key = codes "fedcba9876543210fedcba9876543210"

abbrev pass_nonce : Bytes
pass_nonce = codes "0123456789abcdef01234567"

abbrev vm_keys : Dict Bytes Bytes
vm_keys = (codes "vm", vm_key) ∷ []

abbrev vm_secrets : Secrets
vm_secrets = record {
  eph_pub_key = vm_key;
  encrypted_zip_pass = pass_nonce ++ codes "0123456789abcdefcab";
  clear_zip_pass = codes "cab";
  key_id = codes "vm";
}

abbrev encrypted_record : FileRecord
encrypted_record = record record_one {
  ephemeral_public_key = vm_key;
  encrypted_zip_password = pass_nonce ++ codes "0123456789abcdefcab";
}

abbrev no_key : GoError
no_key = wrap (sentinel private_key_required)

both_spellings : targets (codes "d/" ∷ []) ≡ codes "d/" ∷ codes "d" ∷ []
unfolding targets trim_slash
both_spellings = refl

needs_key : decrypt_part_password sample_box encrypted_record [] ≡ err no_key
unfolding decrypt_part_password
needs_key = refl

makes_secrets :
    own_secrets sample_box (drawing vm_key vm_key pass_nonce) (ok (2 ∷ 0 ∷ 1 ∷ [])) [] vm_keys
    ≡ ok vm_secrets
unfolding own_secrets first_key less generate_zip_crypto_password byte_at encrypt_password
    Dict.lookup Bytes-discrete
makes_secrets = refl

finds_key : Dict.lookup vm_secrets.key_id vm_keys ≡ some vm_key
unfolding Dict.lookup Bytes-discrete
finds_key = refl

own_secrets-decrypts_example :
    decrypt_part_password sample_box encrypted_record vm_key ≡ ok (codes "cab")
own_secrets-decrypts_example =
    own_secrets-decrypts sample_box vm_key vm_key vm_key vm_key pass_nonce (ok (2 ∷ 0 ∷ 1 ∷ [])) []
      vm_keys vm_secrets encrypted_record (sample_box-Opens vm_key vm_key vm_key vm_key) refl refl
      refl refl makes_secrets finds_key refl refl

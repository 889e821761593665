-- ===== src/Names/Tests.antt =====
-- Tests of the names and the keys.
use t_sync_sdk_go.Base.{ℕ, Bytes-discrete, ◌≡◌, refl, true, arith, pos, bytes_eq}
use t_sync_sdk_go.Base.Bytes.{codes}
use t_sync_sdk_go.Errors.{err}
use t_sync_sdk_go.Names.{
  has_bad_byte, validate_name, hex, hex_digit, decimal, decimal_fuel, decimal_int, file_key_for,
  is_digit, is_hex_digit, every, is_valid_file_key, part_key_for, bad_name,
}
use t_sync_sdk_go.Names.Keys.{file_key_for_injective}

key_text : file_key_for 48879 (pos 12) ≡ codes "0000beef_12"
unfolding file_key_for hex hex_digit decimal_int decimal decimal_fuel
key_text = refl

part_text : part_key_for (codes "0000beef_12") ≡ codes "00/0000beef_12"
unfolding part_key_for
part_text = refl

dots_refused : validate_name (codes "..") ≡ err bad_name
unfolding validate_name has_bad_byte Bytes-discrete
dots_refused = refl

beef-valid : is_valid_file_key (codes "0000beef_12") ≡ true
unfolding is_valid_file_key every is_digit is_hex_digit
beef-valid = refl

file_key_for_injective_example : ◌≡◌ {A = ℕ} 48879 48879 × (pos 12 ≡ pos 12)
file_key_for_injective_example =
    file_key_for_injective 48879 48879 (pos 12) (pos 12) (omega arith) (omega arith) refl

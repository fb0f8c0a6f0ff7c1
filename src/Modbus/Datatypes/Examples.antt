-- ===== src/Modbus/Datatypes/Examples.antt =====
-- Values over several registers at concrete inputs. The floats of this file are a stand-in: the
-- theorems applied here are about the integer types.
use xedge.Prelude.{ℕ, ◌≡◌, refl, false, List, [], ◌∷◌, All, arith, length}
use xedge.Prelude.Int.{ℤ, pos, negsuc}
use xedge.Prelude.Results.{ok, err}
use xedge.Prelude.Assoc.{get}
use xedge.Modbus.Codec.Registers.{IsRegister}
use xedge.Modbus.Datatypes.{
  Floats, int_value, out_of_range, overflow_error, big, little, type_spec, is_float, register_count,
  be_bytes, pack_unsigned, pack_signed, pack_value, split_words, coerce, decode, encode,
}
use xedge.Modbus.Datatypes.RoundTrip.{decode-encode, encode-decode}

abbrev no_floats : Floats ℕ
no_floats = record {
  float_of = λ n. err overflow_error;
  int_of = λ x. ok (pos x);
  pack_single = λ x. err overflow_error;
  pack_double = λ x. err overflow_error;
  unpack_single = λ raw. 0;
  unpack_double = λ raw. 0;
}

-- -2 in two registers, the low word first and each register swapped.
abbrev minus_two : List ℕ
minus_two = 0xFEFF ∷ 0xFFFF ∷ []

encodes : encode no_floats (int_value (negsuc 1)) "int32" little little ≡ ok minus_two
unfolding encode type_spec get coerce is_float pack_value pack_signed be_bytes split_words
encodes = refl

refuses : encode no_floats (int_value (pos 70000)) "uint16" big big ≡ err out_of_range
unfolding encode type_spec get coerce is_float pack_value pack_unsigned
refuses = refl

is_integer : is_float "int32" ≡ false
unfolding is_float
is_integer = refl

two_registers : register_count "int32" ≡ ok 2
unfolding register_count type_spec get
two_registers = refl

minus_two-IsRegister : All IsRegister minus_two
minus_two-IsRegister = (omega arith, (omega arith, tt))

decode-encode_example :
    (decode no_floats minus_two "int32" little little ≡ ok (int_value (negsuc 1)))
    × (register_count "int32" ≡ ok (length minus_two))
    × All IsRegister minus_two
decode-encode_example =
    decode-encode no_floats (negsuc 1) "int32" little little minus_two is_integer encodes

encode-decode_example :
    (n : ℤ) × (decode no_floats minus_two "int32" little little ≡ ok (int_value n))
    × (encode no_floats (int_value n) "int32" little little ≡ ok minus_two)
encode-decode_example =
    encode-decode no_floats "int32" little little minus_two is_integer two_registers
      minus_two-IsRegister

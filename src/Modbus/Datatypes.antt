-- ===== src/Modbus/Datatypes.antt =====
-- xedge/drivers/modbus/datatypes.py: values that span several 16-bit registers. Floats are a
-- parameter: the type `F` of Python's floats with the conversions and the `struct` formats `f`, `d`.
use mathlib.Core.List.{reverse}
use xedge.Prelude.{
  ℕ, zero, suc, ◌+◌, ◌-◌, ◌*◌, ◌/◌, ◌%◌, ◌^◌, String, Bool, true, false, ◌||◌, none, some, List, [],
  ◌∷◌, ◌++◌, ltb, length, take, if◌then◌else◌, str_eq,
}
use xedge.Prelude.Int.{ℤ, pos, negsuc}
use xedge.Prelude.Results.{Result, ok, err, ◌>>=◌, ◌>>◌, guard}
use xedge.Prelude.Assoc.{Dict, get}
pub mod Integers
pub mod Orders
pub mod Formats
pub mod RoundTrip
mod Examples

-- The format characters of `struct`.
pub data FormatChar : Type 0 where
  fmt_H fmt_h fmt_I fmt_i fmt_f fmt_Q fmt_q fmt_d : FormatChar

-- The first three are ModbusDataTypeError; the last two are what a conversion of a float raises.
pub data DataTypeError : Type 0 where
  unknown_data_type too_few_registers out_of_range : DataTypeError
  overflow_error value_error : DataTypeError

pub data Order : Type 0 where
  big little : Order

abbrev pub default_data_type : String
default_data_type = "uint16"

unfoldable pub type_spec : Dict (FormatChar × ℕ)
type_spec =
    ("uint16", (fmt_H, 1))
    ∷ ("int16", (fmt_h, 1))
    ∷ ("uint32", (fmt_I, 2))
    ∷ ("int32", (fmt_i, 2))
    ∷ ("float32", (fmt_f, 2))
    ∷ ("uint64", (fmt_Q, 4))
    ∷ ("int64", (fmt_q, 4))
    ∷ ("float64", (fmt_d, 4))
    ∷ []

unfoldable pub register_count : String → Result DataTypeError ℕ
unfolding type_spec get
register_count data_type = elim (get type_spec data_type) [
  | none ↦ err unknown_data_type
  | some (format, count) ↦ ok count
]

unfoldable pub is_float : String → Bool
is_float data_type = str_eq data_type "float32" || str_eq data_type "float64"

-- `width` bytes, the high byte first.
unfoldable pub be_bytes : ℕ → ℕ → List ℕ
be_bytes zero n = []
be_bytes (suc width) n = be_bytes width (n / 256) ++ (n % 256) ∷ []

unfoldable pub from_be : ℕ → List ℕ → ℕ
from_be acc [] = acc
from_be acc (b ∷ bs) = from_be (acc * 256 + b) bs

-- struct.pack of an unsigned and of a signed integer; what does not fit is a struct.error.
unfoldable pub pack_unsigned : ℕ → ℤ → Result DataTypeError (List ℕ)
unfolding be_bytes
pack_unsigned width (pos n) =
    if ltb n (256 ^ width) then ok (be_bytes width n) else err out_of_range
pack_unsigned width (negsuc n) = err out_of_range

unfoldable pub pack_signed : ℕ → ℤ → Result DataTypeError (List ℕ)
unfolding be_bytes
pack_signed width (pos n) =
    if ltb n (256 ^ width / 2) then ok (be_bytes width n) else err out_of_range
pack_signed width (negsuc n) =
    if ltb n (256 ^ width / 2) then ok (be_bytes width (256 ^ width - 1 - n)) else err out_of_range

-- Two's complement.
abbrev pub as_signed : ℕ → ℕ → ℤ
as_signed width n = if ltb n (256 ^ width / 2) then pos n else negsuc (256 ^ width - 1 - n)

-- The bytes of a word in the order within a register.
abbrev pub word_bytes : Order → ℕ → List ℕ
word_bytes big w = (w / 256) ∷ (w % 256) ∷ []
word_bytes little w = (w % 256) ∷ (w / 256) ∷ []

abbrev pub word_of : Order → ℕ → ℕ → ℕ
word_of big a b = a * 256 + b
word_of little a b = b * 256 + a

-- b"".join(struct.pack(…, word & 0xFFFF) for word in words)
unfoldable pub join_words : Order → List ℕ → List ℕ
join_words byte_order [] = []
join_words byte_order (w ∷ ws) = word_bytes byte_order (w % 65536) ++ join_words byte_order ws

-- struct.unpack(…, raw[i : i + 2]) for i in range(0, count * 2, 2)
unfoldable pub split_words : Order → List ℕ → List ℕ
split_words byte_order (a ∷ b ∷ raw) = word_of byte_order a b ∷ split_words byte_order raw
split_words byte_order _ = []

abbrev pub in_word_order : Order → List ℕ → List ℕ
in_word_order big words = words
in_word_order little words = reverse words

pub data Value (F : Type 0) : Type 0 where
  int_value : ℤ → Value F
  float_value : F → Value F

pub record Floats (F : Type 0) : Type 0 where
  pub float_of : ℤ → Result DataTypeError F
  pub int_of : F → Result DataTypeError ℤ
  pub pack_single : F → Result DataTypeError (List ℕ)
  pub pack_double : F → Result DataTypeError (List ℕ)
  pub unpack_single : List ℕ → F
  pub unpack_double : List ℕ → F

module _ {F : Type 0} where
  -- float(value) or int(value)
  unfoldable pub coerce : Floats F → Bool → Value F → Result DataTypeError (Value F)
  coerce fl true (int_value n) = do x ← fl.float_of n; ok (float_value x)
  coerce fl true (float_value x) = ok (float_value x)
  coerce fl false (int_value n) = ok (int_value n)
  coerce fl false (float_value x) = do n ← fl.int_of x; ok (int_value n)

  -- struct.pack; an integer format refuses a float.
  unfoldable pub pack_value : Floats F → FormatChar → Value F → Result DataTypeError (List ℕ)
  unfolding pack_unsigned pack_signed
  pack_value fl fmt_H (int_value n) = pack_unsigned 2 n
  pack_value fl fmt_h (int_value n) = pack_signed 2 n
  pack_value fl fmt_I (int_value n) = pack_unsigned 4 n
  pack_value fl fmt_i (int_value n) = pack_signed 4 n
  pack_value fl fmt_Q (int_value n) = pack_unsigned 8 n
  pack_value fl fmt_q (int_value n) = pack_signed 8 n
  pack_value fl fmt_f (int_value n) = do x ← fl.float_of n; fl.pack_single x
  pack_value fl fmt_d (int_value n) = do x ← fl.float_of n; fl.pack_double x
  pack_value fl fmt_f (float_value x) = fl.pack_single x
  pack_value fl fmt_d (float_value x) = fl.pack_double x
  pack_value fl _ (float_value x) = err out_of_range

  -- struct.unpack of as many bytes as the format has
  unfoldable pub unpack_value : Floats F → FormatChar → List ℕ → Value F
  unfolding from_be
  unpack_value fl fmt_H raw = int_value (pos (from_be 0 raw))
  unpack_value fl fmt_h raw = int_value (as_signed 2 (from_be 0 raw))
  unpack_value fl fmt_I raw = int_value (pos (from_be 0 raw))
  unpack_value fl fmt_i raw = int_value (as_signed 4 (from_be 0 raw))
  unpack_value fl fmt_Q raw = int_value (pos (from_be 0 raw))
  unpack_value fl fmt_q raw = int_value (as_signed 8 (from_be 0 raw))
  unpack_value fl fmt_f raw = float_value (fl.unpack_single raw)
  unpack_value fl fmt_d raw = float_value (fl.unpack_double raw)

  unfoldable pub decode :
      Floats F → List ℕ → String → Order → Order → Result DataTypeError (Value F)
  unfolding type_spec join_words unpack_value
  decode fl registers data_type word_order byte_order = elim (get type_spec data_type) [
    | none ↦ err unknown_data_type
    | some (format_char, count) ↦
        if ltb (length registers) count
        then err too_few_registers
        else ok (
            unpack_value fl format_char
              (join_words byte_order (in_word_order word_order (take count registers))))
  ]

  unfoldable pub encode :
      Floats F → Value F → String → Order → Order → Result DataTypeError (List ℕ)
  unfolding type_spec split_words pack_value coerce is_float
  encode fl value data_type word_order byte_order = elim (get type_spec data_type) [
    | none ↦ err unknown_data_type
    | some (format_char, count) ↦ (do
      coerced ← coerce fl (is_float data_type) value
      raw ← pack_value fl format_char coerced
      ok (in_word_order word_order (split_words byte_order raw)))
  ]

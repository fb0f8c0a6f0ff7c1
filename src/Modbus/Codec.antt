-- ===== src/Modbus/Codec.antt =====
-- xedge/drivers/modbus/codec.py: MBAP framing and the PDUs. A `bytes` value is a list of numbers;
-- what `struct` and indexing raise is written out. Text of error messages is left out.
use Prim.Native.Nat.{bit_and, bit_or}
use xedge.Prelude.{
  ℕ, zero, suc, ◌+◌, ◌-◌, ◌*◌, ◌/◌, ◌%◌, ◌^◌, Bool, true, false, not, ◌&&◌, none, some, List, [],
  ◌∷◌, ◌++◌, ltb, leb, ◌==◌, if◌then◌else◌, length, get_elem?, get_or, set, take, drop, replicate,
}
use xedge.Prelude.Int.{ℤ, pos, negsuc}
use xedge.Prelude.Results.{Result, ok, err, ◌>>=◌, ◌>>◌, guard}
pub mod Frames
pub mod Registers
pub mod Coils
mod Examples

pub data FunctionCode : Type 0 where
  read_coils read_discrete_inputs read_holding_registers read_input_registers : FunctionCode
  write_single_coil write_single_register write_multiple_coils : FunctionCode
  write_multiple_registers : FunctionCode

abbrev pub code_of : FunctionCode → ℕ
code_of read_coils = 0x01
code_of read_discrete_inputs = 0x02
code_of read_holding_registers = 0x03
code_of read_input_registers = 0x04
code_of write_single_coil = 0x05
code_of write_single_register = 0x06
code_of write_multiple_coils = 0x0F
code_of write_multiple_registers = 0x10

-- `modbus_exception` and `framing_error` are the module's own; the others are Python's.
pub data CodecError : Type 0 where
  framing_error : CodecError
  modbus_exception : ℕ → ℕ → CodecError
  value_error : CodecError
  struct_error : CodecError
  index_error : CodecError

abbrev pub mbap_header_length : ℕ
mbap_header_length = 7

abbrev pub exception_response_flag : ℕ
exception_response_flag = 0x80

abbrev pub max_read_bits : ℕ
max_read_bits = 2000

abbrev pub max_read_registers : ℕ
max_read_registers = 125

abbrev pub max_write_coils : ℕ
max_write_coils = 1968

unfoldable pub is_bit_function : FunctionCode → Bool
is_bit_function read_coils = true
is_bit_function read_discrete_inputs = true
is_bit_function _ = false

unfoldable pub is_register_function : FunctionCode → Bool
is_register_function read_holding_registers = true
is_register_function read_input_registers = true
is_register_function _ = false

unfoldable pub max_read_quantity : FunctionCode → ℕ
unfolding is_bit_function
max_read_quantity fc = if is_bit_function fc then max_read_bits else max_read_registers

-- struct: `B` and `H` refuse what does not fit; `>H` writes the high byte first.
abbrev pub pack_b : ℤ → Result CodecError (List ℕ)
pack_b (pos n) = if ltb n 256 then ok (n ∷ []) else err struct_error
pack_b (negsuc n) = err struct_error

abbrev pub pack_h : ℤ → Result CodecError (List ℕ)
pack_h (pos n) = if ltb n 65536 then ok ((n / 256) ∷ (n % 256) ∷ []) else err struct_error
pack_h (negsuc n) = err struct_error

unfoldable pub pack_hs : List ℤ → Result CodecError (List ℕ)
pack_hs [] = ok []
pack_hs (v ∷ vs) = do h ← pack_h v; rest ← pack_hs vs; ok (h ++ rest)

-- struct.unpack(">HH", data)
abbrev pub unpack_hh : List ℕ → Result CodecError (ℕ × ℕ)
unpack_hh (a ∷ b ∷ c ∷ d ∷ []) = ok (a * 256 + b, c * 256 + d)
unpack_hh _ = err struct_error

-- struct.unpack(">HHHB", data)
abbrev pub unpack_hhhb : List ℕ → Result CodecError (ℕ × ℕ × ℕ × ℕ)
unpack_hhhb (a ∷ b ∷ c ∷ d ∷ e ∷ f ∷ g ∷ []) = ok (a * 256 + b, c * 256 + d, e * 256 + f, g)
unpack_hhhb _ = err struct_error

-- struct.unpack(f">{count}H", data)
unfoldable pub words : List ℕ → List ℕ
words [] = []
words (h ∷ []) = []
words (h ∷ l ∷ rest) = (h * 256 + l) ∷ words rest

abbrev pub unpack_hs : ℕ → List ℕ → Result CodecError (List ℕ)
unpack_hs count data' = if length data' == 2 * count then ok (words data') else err struct_error

-- data[i]
abbrev pub byte_at : List ℕ → ℕ → Result CodecError ℕ
byte_at data' i = elim (get_elem? data' i) [ none ↦ err index_error | some b ↦ ok b ]

-- data[a : b]
abbrev pub slice : ℕ → ℕ → List ℕ → List ℕ
slice a b data' = take (b - a) (drop a data')

-- `if not lo <= value <= hi: raise ValueError`; the value is not negative afterwards.
abbrev pub check_range : ℕ → ℕ → ℤ → Result CodecError ℕ
check_range lo hi (pos n) = if leb lo n && leb n hi then ok n else err value_error
check_range lo hi (negsuc n) = err value_error

unfoldable pub encode_mbap : ℤ → ℤ → List ℕ → Result CodecError (List ℕ)
encode_mbap transaction_id unit_id pdu = do
  t ← pack_h transaction_id
  p ← pack_h (pos 0x0000)
  n ← pack_h (pos (length pdu + 1))
  u ← pack_b unit_id
  ok (t ++ (p ++ (n ++ (u ++ pdu))))

-- `len(pdu) != length - 1` is an integer test, so a length field of 0 is refused too.
unfoldable pub decode_mbap : List ℕ → Result CodecError (ℕ × ℕ × List ℕ)
decode_mbap frame = do
  guard (leb mbap_header_length (length frame)) framing_error
  (transaction_id, protocol_id, len, unit_id) ← unpack_hhhb (take mbap_header_length frame)
  guard (protocol_id == 0) framing_error
  let pdu = slice mbap_header_length (mbap_header_length + len - 1) frame
  guard (length pdu + 1 == len) framing_error
  ok (transaction_id, unit_id, pdu)

-- A length field of 0 gives -1.
unfoldable pub frame_remainder_length : List ℕ → Result CodecError ℤ
frame_remainder_length header =
    if length header == mbap_header_length
    then (do
      h ← byte_at header 4
      l ← byte_at header 5
      ok (elim (h * 256 + l) [ zero ↦ negsuc 0 | suc n ↦ pos n ]))
    else err framing_error

unfoldable pub encode_read_request : FunctionCode → ℤ → ℤ → Result CodecError (List ℕ)
unfolding max_read_quantity
encode_read_request fc address quantity = do
  a ← check_range 0 0xFFFF address
  q ← check_range 1 (max_read_quantity fc) quantity
  guard (leb (a + q - 1) 0xFFFF) value_error
  f ← pack_b (pos (code_of fc))
  a' ← pack_h (pos a)
  q' ← pack_h (pos q)
  ok (f ++ (a' ++ q'))

-- `fc & ~0x80` clears the bit that the test found set.
unfoldable pub check_exception : List ℕ → Result CodecError (Unit {0})
check_exception pdu = do
  fc ← byte_at pdu 0
  let flag = bit_and fc exception_response_flag
  if flag == 0 then ok tt else (do code ← byte_at pdu 1; err (modbus_exception (fc - flag) code))

-- bool(b & (1 << k))
abbrev pub test_bit : ℕ → ℕ → Bool
test_bit b k = not (bit_and b (2 ^ k) == 0)

-- The comprehension over `range(quantity)`, from index `i` on.
unfoldable pub bits_from : List ℕ → ℕ → ℕ → Result CodecError (List Bool)
bits_from data' i zero = ok []
bits_from data' i (suc n) = do
  b ← byte_at data' (i / 8)
  rest ← bits_from data' (i + 1) n
  ok (test_bit b (i % 8) ∷ rest)

unfoldable pub decode_bits_response : List ℕ → ℕ → Result CodecError (List Bool)
unfolding check_exception
decode_bits_response pdu quantity = do
  check_exception pdu
  byte_count ← byte_at pdu 1
  bits_from (slice 2 (2 + byte_count) pdu) 0 quantity

unfoldable pub decode_registers_response : List ℕ → Result CodecError (List ℕ)
unfolding check_exception
decode_registers_response pdu = do
  check_exception pdu
  byte_count ← byte_at pdu 1
  unpack_hs (byte_count / 2) (slice 2 (2 + byte_count) pdu)

unfoldable pub encode_write_single_coil : ℤ → Bool → Result CodecError (List ℕ)
encode_write_single_coil address value = do
  a ← check_range 0 0xFFFF address
  f ← pack_b (pos (code_of write_single_coil))
  a' ← pack_h (pos a)
  v ← pack_h (pos (if value then 0xFF00 else 0x0000))
  ok (f ++ (a' ++ v))

unfoldable pub encode_write_single_register : ℤ → ℤ → Result CodecError (List ℕ)
encode_write_single_register address value = do
  a ← check_range 0 0xFFFF address
  n ← check_range 0 0xFFFF value
  f ← pack_b (pos (code_of write_single_register))
  a' ← pack_h (pos a)
  v ← pack_h (pos n)
  ok (f ++ (a' ++ v))

unfoldable pub encode_write_multiple_registers : ℤ → List ℤ → Result CodecError (List ℕ)
unfolding pack_hs
encode_write_multiple_registers address values = do
  a ← check_range 0 0xFFFF address
  guard (leb 1 (length values) && leb (length values) 123) value_error
  let byte_count = length values * 2
  f ← pack_b (pos (code_of write_multiple_registers))
  a' ← pack_h (pos a)
  q ← pack_h (pos (length values))
  n ← pack_b (pos byte_count)
  vs ← pack_hs values
  ok (f ++ (a' ++ (q ++ (n ++ vs))))

-- `packed[i // 8] |= 1 << (i % 8)` for each set bit, from index `i` on.
unfoldable pub pack_coils : ℕ → List Bool → List ℕ → List ℕ
pack_coils i [] packed = packed
pack_coils i (bit ∷ bits) packed =
    pack_coils (i + 1) bits
      (if bit then set packed (i / 8) (bit_or (get_or packed (i / 8) 0) (2 ^ (i % 8))) else packed)

unfoldable pub encode_write_multiple_coils : ℤ → List Bool → Result CodecError (List ℕ)
unfolding pack_coils
encode_write_multiple_coils address values = do
  a ← check_range 0 0xFFFF address
  guard (leb 1 (length values) && leb (length values) max_write_coils) value_error
  let byte_count = (length values + 7) / 8
  f ← pack_b (pos (code_of write_multiple_coils))
  a' ← pack_h (pos a)
  q ← pack_h (pos (length values))
  n ← pack_b (pos byte_count)
  ok (f ++ (a' ++ (q ++ (n ++ pack_coils 0 values (replicate byte_count 0)))))

unfoldable pub decode_write_single_response : List ℕ → Result CodecError (ℕ × ℕ)
unfolding check_exception
decode_write_single_response pdu = do check_exception pdu; unpack_hh (slice 1 5 pdu)

unfoldable pub decode_write_multiple_response : List ℕ → Result CodecError (ℕ × ℕ)
unfolding check_exception
decode_write_multiple_response pdu = do check_exception pdu; unpack_hh (slice 1 5 pdu)

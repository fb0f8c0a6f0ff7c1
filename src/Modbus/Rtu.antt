-- ===== src/Modbus/Rtu.antt =====
-- xedge/drivers/modbus/rtu_codec.py: the frames of serial lines, guarded by a CRC of 16 bits.
use Prim.Native.Nat.{bit_and, bit_or, bit_xor}
use xedge.Prelude.{
  ℕ, zero, suc, ◌+◌, ◌-◌, ◌*◌, ◌/◌, ◌≡◌, refl, List, [], ◌∷◌, ◌++◌, length, take, drop, leb, ltb,
  ◌==◌, if◌then◌else◌,
}
use xedge.Prelude.Int.{ℤ, pos, negsuc}
use xedge.Prelude.Results.{Result, ok, err, ◌>>=◌, ◌>>◌, guard}
pub mod Crc
pub mod Frames
mod Examples

abbrev pub crc_polynomial : ℕ
crc_polynomial = 0xA001

abbrev pub crc_initial : ℕ
crc_initial = 0xFFFF

abbrev pub min_rtu_frame_length : ℕ
min_rtu_frame_length = 4

-- `rtu_framing_error` is ModbusRtuFramingError.
pub data RtuError : Type 0 where
  rtu_framing_error value_error index_error : RtuError

-- One round of the inner loop.
unfoldable pub crc_bit : ℕ → ℕ
crc_bit crc = if bit_and crc 1 == 0 then crc / 2 else bit_xor (crc / 2) crc_polynomial

unfoldable pub crc_bits : ℕ → ℕ → ℕ
crc_bits zero crc = crc
crc_bits (suc n) crc = crc_bits n (crc_bit crc)

-- One round of the outer loop.
unfoldable pub crc_byte : ℕ → ℕ → ℕ
crc_byte crc byte = crc_bits 8 (bit_xor crc byte)

unfoldable pub crc_over : ℕ → List ℕ → ℕ
crc_over crc [] = crc
crc_over crc (byte ∷ rest) = crc_over (crc_byte crc byte) rest

unfoldable pub compute_crc16 : List ℕ → ℕ
compute_crc16 data' = crc_over crc_initial data'

-- bytes([crc & 0xFF, (crc >> 8) & 0xFF])
abbrev pub crc_bytes : ℕ → List ℕ
crc_bytes crc = bit_and crc 0xFF ∷ bit_and (crc / 256) 0xFF ∷ []

unfoldable pub encode_rtu_frame : ℤ → List ℕ → Result RtuError (List ℕ)
encode_rtu_frame (negsuc n) pdu = err value_error
encode_rtu_frame (pos address) pdu =
    if leb address 255
    then (let body = address ∷ pdu in ok (body ++ crc_bytes (compute_crc16 body)))
    else err value_error

-- received_crc_bytes[0] | (received_crc_bytes[1] << 8)
abbrev pub received_crc : List ℕ → Result RtuError ℕ
received_crc (low ∷ high ∷ rest) = ok (bit_or low (high * 256))
received_crc _ = err index_error

-- body[0], body[1:]
abbrev pub split_body : List ℕ → Result RtuError (ℕ × List ℕ)
split_body [] = err index_error
split_body (address ∷ pdu) = ok (address, pdu)

unfoldable pub decode_rtu_frame : List ℕ → Result RtuError (ℕ × List ℕ)
decode_rtu_frame frame = do
  guard (leb min_rtu_frame_length (length frame)) rtu_framing_error
  let body = take (length frame - 2) frame
  received ← received_crc (drop (length frame - 2) frame)
  guard (received == compute_crc16 body) rtu_framing_error
  split_body body

-- ===== src/Modbus/Rtu/Examples.antt =====
-- RTU frames at concrete inputs.
use xedge.Prelude.{ℕ, ◌+◌, ◌≡◌, refl, List, [], ◌∷◌, All, arith, length, set}
use xedge.Prelude.Int.{pos}
use xedge.Prelude.Results.{ok, err}
use xedge.Modbus.Codec.Frames.{IsByte}
use xedge.Modbus.Rtu.{
  rtu_framing_error, crc_bit, crc_bits, crc_byte, crc_over, compute_crc16, encode_rtu_frame,
  decode_rtu_frame,
}
use xedge.Modbus.Rtu.Frames.{decode_rtu-encode_rtu, corruption_detected, encode_rtu-decode_rtu}

abbrev read_pdu : List ℕ
read_pdu = 3 ∷ 0 ∷ 0 ∷ 0 ∷ 10 ∷ []

-- A read of ten registers of slave 1.
abbrev read_frame : List ℕ
read_frame = 1 ∷ 3 ∷ 0 ∷ 0 ∷ 0 ∷ 10 ∷ 0xC5 ∷ 0xCD ∷ []

encodes : encode_rtu_frame (pos 1) read_pdu ≡ ok read_frame
unfolding encode_rtu_frame compute_crc16 crc_over crc_byte crc_bits crc_bit
encodes = refl

decodes : decode_rtu_frame read_frame ≡ ok (1, read_pdu)
unfolding decode_rtu_frame compute_crc16 crc_over crc_byte crc_bits crc_bit
decodes = refl

read_pdu-IsByte : All IsByte read_pdu
read_pdu-IsByte = (omega arith, (omega arith, (omega arith, (omega arith, (omega arith, tt)))))

read_frame-IsByte : All IsByte read_frame
read_frame-IsByte = (
  omega arith,
  (
    omega arith,
    (omega arith, (omega arith, (omega arith, (omega arith, (omega arith, (omega arith, tt)))))),
  ),
)

decode_rtu-encode_rtu_example :
    (fr : List ℕ) × (encode_rtu_frame (pos 1) read_pdu ≡ ok fr)
    × (decode_rtu_frame fr ≡ ok (1, read_pdu))
    × (length fr ≡ length read_pdu + 3)
decode_rtu-encode_rtu_example =
    decode_rtu-encode_rtu 1 read_pdu (omega arith) read_pdu-IsByte (omega arith)

corruption_detected_example : decode_rtu_frame (set read_frame 5 11) ≡ err rtu_framing_error
corruption_detected_example =
    corruption_detected 1 5 11 read_pdu read_frame encodes read_pdu-IsByte (omega arith)
      (omega arith) (λ e. absurd (omega (arith, e)))

encode_rtu-decode_rtu_example : encode_rtu_frame (pos 1) read_pdu ≡ ok read_frame
encode_rtu-decode_rtu_example =
    encode_rtu-decode_rtu 1 read_pdu read_frame read_frame-IsByte decodes

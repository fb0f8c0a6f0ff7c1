-- ===== src/Modbus/Codec/Examples.antt =====
-- Frames and PDUs at concrete inputs.
use xedge.Prelude.{
  ℕ, ◌+◌, ◌*◌, ◌/◌, ◌≤◌, ◌≡◌, refl, Bool, true, false, List, [], ◌∷◌, map, arith, length, take,
  drop,
}
use xedge.Prelude.Int.{pos}
use xedge.Prelude.Results.{ok, err}
use xedge.Modbus.Codec.{
  framing_error, encode_mbap, decode_mbap, frame_remainder_length, decode_bits_response,
  decode_registers_response, encode_write_multiple_coils, encode_write_multiple_registers,
  decode_write_multiple_response,
}
use xedge.Modbus.Codec.Frames.{decode_mbap-encode_mbap}
use xedge.Modbus.Codec.Registers.{write_registers_round_trip}
use xedge.Modbus.Codec.Coils.{write_coils_round_trip}

abbrev read_pdu : List ℕ
read_pdu = 3 ∷ 0 ∷ 10 ∷ 0 ∷ 2 ∷ []

abbrev read_frame : List ℕ
read_frame = 1 ∷ 2 ∷ 0 ∷ 0 ∷ 0 ∷ 6 ∷ 17 ∷ read_pdu

abbrev coils : List Bool
coils = true ∷ false ∷ true ∷ true ∷ false ∷ false ∷ true ∷ true ∷ true ∷ false ∷ []

encodes : encode_mbap (pos 258) (pos 17) read_pdu ≡ ok read_frame
unfolding encode_mbap
encodes = refl

-- A length field of 0 announces -1 bytes, and is refused.
zero_length : decode_mbap (0 ∷ 1 ∷ 0 ∷ 0 ∷ 0 ∷ 0 ∷ 1 ∷ []) ≡ err framing_error
unfolding decode_mbap
zero_length = refl

coils_on_the_wire :
    encode_write_multiple_coils (pos 19) coils ≡ ok (15 ∷ 0 ∷ 19 ∷ 0 ∷ 10 ∷ 2 ∷ 205 ∷ 1 ∷ [])
unfolding encode_write_multiple_coils
coils_on_the_wire = refl

decode_mbap-encode_mbap_example :
    (fr : List ℕ) × (encode_mbap (pos 258) (pos 17) read_pdu ≡ ok fr)
    × (decode_mbap fr ≡ ok (258, 17, read_pdu))
    × (frame_remainder_length (take 7 fr) ≡ ok (pos 5))
    × (length fr ≡ 7 + 5)
decode_mbap-encode_mbap_example =
    decode_mbap-encode_mbap 258 17 read_pdu (omega arith) (omega arith) (omega arith)

abbrev registers : List ℕ
registers = 1 ∷ 513 ∷ 65535 ∷ []

write_registers_round_trip_example :
    (pdu : List ℕ) × (encode_write_multiple_registers (pos 7) (map pos registers) ≡ ok pdu)
    × (length pdu ≤ 253)
    × (decode_registers_response (3 ∷ (2 * length registers) ∷ drop 6 pdu) ≡ ok registers)
    × (decode_write_multiple_response (take 5 pdu) ≡ ok (7, length registers))
write_registers_round_trip_example =
    write_registers_round_trip 7 registers (omega arith) (omega arith) (omega arith) (omega arith)

write_coils_round_trip_example :
    (pdu : List ℕ) × (encode_write_multiple_coils (pos 19) coils ≡ ok pdu)
    × (length pdu ≤ 253)
    × (decode_bits_response (1 ∷ ((length coils + 7) / 8) ∷ drop 6 pdu) (length coils) ≡ ok coils)
    × (decode_write_multiple_response (take 5 pdu) ≡ ok (19, length coils))
write_coils_round_trip_example =
    write_coils_round_trip 19 coils (omega arith) (omega arith) (omega arith)

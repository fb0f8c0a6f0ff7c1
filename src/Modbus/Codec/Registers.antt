-- ===== src/Modbus/Codec/Registers.antt =====
-- Register PDUs of xedge/drivers/modbus/codec.py, the limits of a read request, and exception
-- responses.
use Prim.Native.Nat.{bit_and}
use xedge.Prelude.{
  ℕ, suc, ◌+◌, ◌-◌, ◌*◌, ◌/◌, ◌%◌, ◌≤◌, ◌<◌, ◌≡◌, refl, ap, ◌&&◌, List, [], ◌∷◌, map, arith, length,
  take, drop, All, leb, if◌then◌else◌, take-all,
}
use xedge.Prelude.Int.{ℤ, pos, negsuc}
use xedge.Prelude.Bits.{passes_below, eq_below}
use xedge.Prelude.Results.{ok, err}
use xedge.Modbus.Codec.{
  FunctionCode, read_coils, read_discrete_inputs, read_holding_registers, read_input_registers,
  write_single_coil, write_single_register, write_multiple_coils, write_multiple_registers,
  modbus_exception, value_error, code_of, is_bit_function, max_read_quantity, pack_hs, words,
  encode_read_request, check_exception, decode_bits_response, decode_registers_response,
  encode_write_multiple_registers, decode_write_single_response, decode_write_multiple_response,
}

-- The bytes of registers on the wire, high byte first.
abbrev pub register_bytes : List ℕ → List ℕ
register_bytes [] = []
register_bytes (v ∷ vs) = (v / 256) ∷ (v % 256) ∷ register_bytes vs

abbrev pub IsRegister : ℕ → Type 0
IsRegister v = v < 65536

pack_hs-register_bytes :
    (vs : List ℕ) → All IsRegister vs → pack_hs (map pos vs) ≡ ok (register_bytes vs)
unfolding pack_hs
pack_hs-register_bytes [] h = refl
pack_hs-register_bytes (v ∷ vs) h = ground (arith, pack_hs-register_bytes vs)

pub words-register_bytes : (vs : List ℕ) → words (register_bytes vs) ≡ vs
unfolding words
words-register_bytes [] = refl
words-register_bytes (v ∷ vs) = ground (arith, words-register_bytes vs)

pub length-register_bytes : (vs : List ℕ) → length (register_bytes vs) ≡ 2 * length vs
length-register_bytes [] = omega arith
length-register_bytes (v ∷ vs) = omega (arith, length-register_bytes vs)

length-map_pos : (vs : List ℕ) → length (map pos vs) ≡ length vs
length-map_pos [] = refl
length-map_pos (v ∷ vs) = ap suc (length-map_pos vs)

pub flag_of : (b : ℕ) → b < 256 → bit_and b 0x80 ≡ b / 128 * 128
unfolding passes_below
flag_of = eq_below _ _ 256 refl

-- A response whose function code has no exception flag passes the check.
pub check_exception_pass : (f : ℕ) (rest : List ℕ) → f < 128 → check_exception (f ∷ rest) ≡ ok tt
unfolding check_exception
check_exception_pass f rest h = ground (arith, flag_of f)

check_exception_raise :
    (f code : ℕ) (rest : List ℕ)
    → f < 128
    → check_exception ((f + 128) ∷ code ∷ rest) ≡ err (modbus_exception f code)
unfolding check_exception
check_exception_raise f code rest h = ground (arith, flag_of (f + 128))

-- Each of the four response decoders turns an exception response, whose first byte is the function
-- code with the top bit set, into a `ModbusException` with that function code and exception code.
pub exception_raised :
    (f code quantity : ℕ) (rest : List ℕ)
    → f < 128
    → let pdu = (f + 128) ∷ code ∷ rest in
      (decode_bits_response pdu quantity ≡ err (modbus_exception f code))
      × (decode_registers_response pdu ≡ err (modbus_exception f code))
      × (decode_write_single_response pdu ≡ err (modbus_exception f code))
      × (decode_write_multiple_response pdu ≡ err (modbus_exception f code))
exception_raised f code quantity rest h =
    let e = check_exception_raise f code rest h in
    (
      unfold decode_bits_response in rw e,
      unfold decode_registers_response in rw e,
      unfold decode_write_single_response in rw e,
      unfold decode_write_multiple_response in rw e,
    )

decode_registers-bytes :
    (f : ℕ) (vs : List ℕ)
    → f < 128
    → decode_registers_response (f ∷ (2 * length vs) ∷ register_bytes vs) ≡ ok vs
unfolding decode_registers_response
decode_registers-bytes f vs h = ground (
  arith,
  flag_of f,
  take-all (2 + 2 * length vs - 2) (register_bytes vs),
  length-register_bytes vs,
  words-register_bytes vs,
)

-- The PDU that a write of registers sends.
abbrev write_pdu : ℕ → List ℕ → List ℕ
write_pdu a vs =
    16
    ∷ (a / 256)
    ∷ (a % 256)
    ∷ (length vs / 256)
    ∷ (length vs % 256)
    ∷ (length vs * 2)
    ∷ register_bytes vs

encode_registers-write_pdu :
    (a : ℕ) (vs : List ℕ)
    → a < 65536
    → 1 ≤ length vs
    → length vs ≤ 123
    → All IsRegister vs
    → encode_write_multiple_registers (pos a) (map pos vs) ≡ ok (write_pdu a vs)
unfolding encode_write_multiple_registers
encode_registers-write_pdu a vs ha h1 h2 hv =
    rw (length-map_pos vs) (ground (arith, pack_hs-register_bytes vs))

-- A write of 1 to 123 registers that fit 16 bits, at an address that fits 16 bits, is encoded in at
-- most 253 bytes; a device that sends the same data bytes back in a read response is decoded to the
-- same registers, and its echo of the address and the quantity is decoded to those.
pub write_registers_round_trip :
    (a : ℕ) (vs : List ℕ)
    → a < 65536
    → 1 ≤ length vs
    → length vs ≤ 123
    → All IsRegister vs
    → (pdu : List ℕ) × (encode_write_multiple_registers (pos a) (map pos vs) ≡ ok pdu)
      × (length pdu ≤ 253)
      × (decode_registers_response (3 ∷ (2 * length vs) ∷ drop 6 pdu) ≡ ok vs)
      × (decode_write_multiple_response (take 5 pdu) ≡ ok (a, length vs))
write_registers_round_trip a vs ha h1 h2 hv = (
  write_pdu a vs,
  encode_registers-write_pdu a vs ha h1 h2 hv,
  omega (arith, length-register_bytes vs),
  decode_registers-bytes 3 vs (omega arith),
  unfold decode_write_multiple_response in ground arith,
)

-- Bytes of the answer to a read request: function code, byte count and data.
abbrev pub response_length : FunctionCode → ℕ → ℕ
response_length fc quantity = 2 + (if is_bit_function fc then (quantity + 7) / 8 else 2 * quantity)

-- `encode_read_request` accepts exactly the requests whose address fits 16 bits, whose quantity is
-- from 1 to the limit of the function code, and which end inside the address space; it refuses all
-- others with a `ValueError`.
pub encode_read_request_lem :
    (fc : FunctionCode) (a q : ℕ)
    → encode_read_request fc (pos a) (pos q) ≡ (
        if leb 1 q && (leb q (max_read_quantity fc) && leb (a + q) 65536)
        then ok (code_of fc ∷ (a / 256) ∷ (a % 256) ∷ (q / 256) ∷ (q % 256) ∷ [])
        else err value_error)
unfolding encode_read_request is_bit_function
encode_read_request_lem read_coils a q = ground arith
encode_read_request_lem read_discrete_inputs a q = ground arith
encode_read_request_lem read_holding_registers a q = ground arith
encode_read_request_lem read_input_registers a q = ground arith
encode_read_request_lem write_single_coil a q = ground arith
encode_read_request_lem write_single_register a q = ground arith
encode_read_request_lem write_multiple_coils a q = ground arith
encode_read_request_lem write_multiple_registers a q = ground arith

-- The answer to any request that `encode_read_request` makes fits in a PDU of 253 bytes, and no
-- address of it passes 65535.
pub read_request_fits :
    (fc : FunctionCode) (a q : ℤ) (pdu : List ℕ)
    → encode_read_request fc a q ≡ ok pdu
    → (m n : ℕ) × (a ≡ pos m) × (q ≡ pos n) × (response_length fc n ≤ 253) × (m + n ≤ 65536)
unfolding encode_read_request is_bit_function
read_request_fits fc (negsuc a) q pdu h = cc
read_request_fits fc (pos a) (negsuc q) pdu h = ground arith
read_request_fits fc (pos a) (pos q) pdu h = (a, q, refl, refl, ground arith, ground arith)

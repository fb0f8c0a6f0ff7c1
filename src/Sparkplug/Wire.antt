-- ===== src/Sparkplug/Wire.antt =====
-- xedge/northbound/sparkplug/wire.py: protobuf's varints and fields, written and read.
use Prim.Native.Nat.{bit_and, bit_or}
use xedge.Prelude.{
  ℕ, zero, suc, ◌+◌, ◌*◌, ◌/◌, ◌^◌, Bool, true, false, Option, none, some, List, [], ◌∷◌, ◌++◌,
  length, take, drop, leb, ltb, ◌==◌, if◌then◌else◌,
}
use xedge.Prelude.Int.{ℤ, pos, negsuc}
use xedge.Prelude.Results.{Result, ok, err, ◌>>=◌}
pub mod Varints
pub mod Messages
pub mod Fuel
mod Examples

abbrev pub wire_type_varint : ℕ
wire_type_varint = 0

abbrev pub wire_type_fixed64 : ℕ
wire_type_fixed64 = 1

abbrev pub wire_type_length_delimited : ℕ
wire_type_length_delimited = 2

abbrev pub wire_type_fixed32 : ℕ
wire_type_fixed32 = 5

-- The first four are ProtobufDecodeError.
pub data WireError : Type 0 where
  truncated_varint truncated_fixed64 truncated_bytes truncated_fixed32 : WireError
  unsupported_wire_type : ℕ → WireError
  value_error overflow_error : WireError

-- The loop of `encode_varint`; a value runs out of bits before the fuel runs out.
unfoldable pub varint_bytes : ℕ → ℕ → List ℕ
varint_bytes zero value = []
varint_bytes (suc fuel) value =
    let byte = bit_and value 0x7F in
    let rest = varint_bytes fuel (value / 128) in
    if value / 128 == 0 then byte ∷ [] else bit_or byte 0x80 ∷ rest

unfoldable pub encode_varint : ℤ → Result WireError (List ℕ)
unfolding varint_bytes
encode_varint (negsuc n) = err value_error
encode_varint (pos value) = ok (varint_bytes (suc value) value)

-- (field_number << 3) | wire_type
unfoldable pub encode_tag : ℕ → ℕ → Result WireError (List ℕ)
encode_tag field_number wire_type = encode_varint (pos (bit_or (field_number * 8) wire_type))

unfoldable pub encode_varint_field : ℕ → ℤ → Result WireError (List ℕ)
encode_varint_field field_number value = do
  tag ← encode_tag field_number wire_type_varint
  bytes ← encode_varint value
  ok (tag ++ bytes)

unfoldable pub encode_bool_field : ℕ → Bool → Result WireError (List ℕ)
encode_bool_field field_number value =
    encode_varint_field field_number (pos (if value then 1 else 0))

-- `pack` is struct.pack("<f", …), which raises OverflowError for a float beyond the range.
module _ {F : Type 0} (pack : F → Result WireError (List ℕ)) where
  unfoldable pub encode_fixed32_field : ℕ → F → Result WireError (List ℕ)
  encode_fixed32_field field_number value = do
    tag ← encode_tag field_number wire_type_fixed32
    bytes ← pack value
    ok (tag ++ bytes)

-- `pack` is struct.pack("<d", …), which packs every float.
module _ {F : Type 0} (pack : F → List ℕ) where
  unfoldable pub encode_fixed64_field : ℕ → F → Result WireError (List ℕ)
  encode_fixed64_field field_number value = do
    tag ← encode_tag field_number wire_type_fixed64
    ok (tag ++ pack value)

unfoldable pub encode_bytes_field : ℕ → List ℕ → Result WireError (List ℕ)
encode_bytes_field field_number value = do
  tag ← encode_tag field_number wire_type_length_delimited
  size ← encode_varint (pos (length value))
  ok (tag ++ (size ++ value))

-- The loop of `decode_varint` on the bytes from `at` on.
unfoldable pub varint_from : List ℕ → ℕ → ℕ → ℕ → Result WireError (ℕ × ℕ)
varint_from [] at' result shift = err truncated_varint
varint_from (byte ∷ rest) at' result shift =
    let result' = bit_or result (bit_and byte 0x7F * 2 ^ shift) in
    let further = varint_from rest (at' + 1) result' (shift + 7) in
    if bit_and byte 0x80 == 0 then ok (result', at' + 1) else further

unfoldable pub decode_varint : List ℕ → ℕ → Result WireError (ℕ × ℕ)
unfolding varint_from
decode_varint data' at' = varint_from (drop at' data') at' 0 0

pub data FieldValue : Type 0 where
  int_field : ℕ → FieldValue
  bytes_field : List ℕ → FieldValue

pub record Field : Type 0 where
  pub field_number : ℕ
  pub wire_type : ℕ
  pub value : FieldValue

-- `size` bytes at a position, if they are there.
abbrev pub payload : WireError → List ℕ → ℕ → ℕ → Result WireError (FieldValue × ℕ)
payload truncated data' at' size =
    if ltb (length data') (at' + size)
    then err truncated
    else ok (bytes_field (take size (drop at' data')), at' + size)

unfoldable pub field_value : List ℕ → ℕ → ℕ → Result WireError (FieldValue × ℕ)
field_value data' wire_type at' =
    if wire_type == wire_type_varint
    then (do (value, after) ← decode_varint data' at'; ok (int_field value, after))
    else if wire_type == wire_type_fixed64
    then payload truncated_fixed64 data' at' 8
    else if wire_type == wire_type_length_delimited
    then (do (size, after) ← decode_varint data' at'; payload truncated_bytes data' after size)
    else if wire_type == wire_type_fixed32
    then payload truncated_fixed32 data' at' 4
    else err (unsupported_wire_type wire_type)

unfoldable pub next_field : List ℕ → ℕ → Result WireError (Field × ℕ)
next_field data' at' = do
  (tag, after) ← decode_varint data' at'
  (value, end) ← field_value data' (bit_and tag 7) after
  ok (record { field_number = tag / 8; wire_type = bit_and tag 7; value = value }, end)

-- What the generator yields, and the exception that ends it, if one does.
unfoldable pub fields_from : ℕ → List ℕ → ℕ → List Field × Option WireError
fields_from zero data' at' = ([], none)
fields_from (suc fuel) data' at' =
    if ltb at' (length data')
    then elim (next_field data' at') [
      | err e ↦ ([], some e)
      | ok (field, end) ↦
          let (fields, failure) = fields_from fuel data' end in (field ∷ fields, failure)
    ]
    else ([], none)

-- Every field takes a byte at least, so that the length of the data is fuel enough.
unfoldable pub iter_fields : List ℕ → List Field × Option WireError
unfolding fields_from
iter_fields data' = fields_from (suc (length data')) data' 0

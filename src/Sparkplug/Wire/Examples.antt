-- ===== src/Sparkplug/Wire/Examples.antt =====
-- Sparkplug's wire format at concrete inputs. Floats are given by their bytes here.
use xedge.Prelude.{
  ℕ, Bool, true, false, ltb, length, ap, sym, if◌then◌else◌, ◌≡◌, refl, none, some, List, [], ◌∷◌,
  map,
}
use xedge.Prelude.Int.{pos, negsuc}
use xedge.Prelude.Results.{Result, ok, err}
use xedge.Sparkplug.Wire.{
  varint_bytes, encode_varint, decode_varint, varint_from, field_value, next_field, fields_from,
  iter_fields, truncated_bytes, value_error, overflow_error, WireError, encode_fixed32_field,
  encode_tag, int_field,
}
use native.Mathlib.Omega.{arith}
use xedge.Sparkplug.Wire.Fuel.{iter_fields_enough}
use xedge.Sparkplug.Wire.Messages.{
  Item, varint_item, bytes_item, fixed32_item, fixed64_item, encode_message, field_of,
  iter_fields-encode_message,
}

three_hundred : encode_varint (pos 300) ≡ ok (0xAC ∷ 2 ∷ [])
unfolding encode_varint varint_bytes
three_hundred = refl

negative : encode_varint (negsuc 0) ≡ err value_error
unfolding encode_varint
negative = refl

-- A field is yielded before the next one is found to be cut.
cut :
    iter_fields (8 ∷ 5 ∷ 18 ∷ 3 ∷ 1 ∷ [])
    ≡ (record { field_number = 1; wire_type = 0; value = int_field 5 } ∷ [], some truncated_bytes)
unfolding iter_fields fields_from next_field field_value decode_varint varint_from
cut = refl

-- Floats from 256 on are beyond the range.
abbrev four : ℕ → Result WireError (List ℕ)
four x = if ltb x 256 then ok (x ∷ 0 ∷ 0 ∷ 0 ∷ []) else err overflow_error

four-length : (x : ℕ) (bytes : List ℕ) → four x ≡ ok bytes → length bytes ≡ 4
four-length x bytes e = either (ltb x 256) e
  where
    either :
        (b : Bool)
        → (if b then ok (x ∷ 0 ∷ 0 ∷ 0 ∷ []) else err overflow_error) ≡ ok bytes
        → length bytes ≡ 4
    either true e = ap (λ r. elim r as (λ _. ℕ) [ ok b ↦ length b | err f ↦ 4 ]) (sym e)
    either false e = absurd (cc e)

abbrev eight : ℕ → List ℕ
eight x = x ∷ 0 ∷ 0 ∷ 0 ∷ 0 ∷ 0 ∷ 0 ∷ 0 ∷ []

too_large : encode_message four eight (fixed32_item 3 300 ∷ []) ≡ err overflow_error
unfolding encode_message encode_fixed32_field encode_tag encode_varint varint_bytes
too_large = refl

abbrev items : List (Item ℕ)
items =
    varint_item 1 300 ∷ bytes_item 2 (1 ∷ 2 ∷ 3 ∷ []) ∷ fixed32_item 3 7 ∷ fixed64_item 20 9 ∷ []

iter_fields-encode_message_example :
    (data' : List ℕ) × (encode_message four eight items ≡ ok data')
    × (iter_fields data' ≡ (map (field_of four eight) items, none))
iter_fields-encode_message_example =
    iter_fields-encode_message four eight four-length (λ x. refl) items
      (tt, (tt, ((7 ∷ 0 ∷ 0 ∷ 0 ∷ [], refl), (tt, tt))))

abbrev broken : List ℕ
broken = 8 ∷ 5 ∷ 18 ∷ 3 ∷ 1 ∷ []

iter_fields_enough_example : fields_from 50 broken 0 ≡ iter_fields broken
iter_fields_enough_example = iter_fields_enough broken 50 (omega arith)

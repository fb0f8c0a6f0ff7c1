-- ===== src/Sparkplug/Wire/Messages.antt =====
-- Messages of xedge/northbound/sparkplug/wire.py: `iter_fields` reads back the fields that the
-- encoders wrote, in their order.
use Prim.Native.Nat.{bit_and}
use xedge.Prelude.{
  ℕ, zero, suc, ◌+◌, ◌*◌, ◌/◌, ◌≤◌, ◌<◌, ◌≡◌, refl, sym, ap, ◌∙◌, none, List, [], ◌∷◌, ◌++◌, map,
  arith, length, All, length-append, append_assoc, take-length_append, drop-length_append,
}
use xedge.Prelude.Int.{pos}
use xedge.Prelude.Masks.{bit_or-low, bit_and-seven}
use xedge.Prelude.Results.{Result, ok, err, ◌>>=◌}
use xedge.Sparkplug.Wire.{
  WireError, Field, FieldValue, int_field, bytes_field, varint_bytes, decode_varint, encode_tag,
  encode_varint_field, encode_fixed32_field, encode_fixed64_field, encode_bytes_field, payload,
  field_value, next_field, fields_from, iter_fields,
}
use xedge.Sparkplug.Wire.Varints.{encode_varint-bytes, varint_bytes-some, decode_varint-bytes}

-- A field before it is encoded; `F` is the type of floats.
pub data Item (F : Type 0) : Type 0 where
  varint_item : ℕ → ℕ → Item F
  bytes_item : ℕ → List ℕ → Item F
  fixed32_item fixed64_item : ℕ → F → Item F

abbrev varint : ℕ → List ℕ
varint v = varint_bytes (suc v) v

payload-at :
    (truncated : WireError) (before raw rest : List ℕ)
    → payload truncated (before ++ (raw ++ rest)) (length before) (length raw)
      ≡ ok (bytes_field raw, length before + length raw)
payload-at truncated before raw rest =
    let whole = length-append before (raw ++ rest) in
    let tail = length-append raw rest in
    rw
      (
        drop-length_append before (raw ++ rest) (length before) refl,
        take-length_append raw rest (length raw) refl,
      )
      (ground (arith, whole, tail))

-- Bytes `t` and `raw` behind `before`: where they are in the whole.
regroup :
    (before t raw rest : List ℕ) → before ++ ((t ++ raw) ++ rest) ≡ (before ++ t) ++ (raw ++ rest)
regroup before t raw rest =
    ap (λ l. before ++ l) (append_assoc t raw rest) ∙ sym (append_assoc before t (raw ++ rest))

end-append :
    (before t raw : List ℕ) → length (before ++ t) + length raw ≡ length before + length (t ++ raw)
end-append before t raw = omega (arith, length-append before t, length-append t raw)

payload-behind :
    (truncated : WireError) (before t raw rest : List ℕ)
    → payload truncated (before ++ ((t ++ raw) ++ rest)) (length before + length t) (length raw)
      ≡ ok (bytes_field raw, length before + length (t ++ raw))
payload-behind truncated before t raw rest =
    ap (λ d. payload truncated d (length before + length t) (length raw))
      (regroup before t raw rest)
    ∙ ap (λ p. payload truncated ((before ++ t) ++ (raw ++ rest)) p (length raw))
        (sym (length-append before t))
    ∙ payload-at truncated (before ++ t) raw rest
    ∙ ap (λ p. ok (bytes_field raw, p)) (end-append before t raw)

varint-behind :
    (v : ℕ) (before raw rest : List ℕ)
    → decode_varint (before ++ ((varint v ++ raw) ++ rest)) (length before)
      ≡ ok (v, length before + length (varint v))
varint-behind v before raw rest =
    ap (λ l. decode_varint (before ++ l) (length before)) (append_assoc (varint v) raw rest)
    ∙ decode_varint-bytes v before (raw ++ rest)

next_field-parts :
    (d : List ℕ) (at' tag after w n end : ℕ) (v : FieldValue)
    → decode_varint d at' ≡ ok (tag, after)
    → bit_and tag 7 ≡ w
    → tag / 8 ≡ n
    → field_value d w after ≡ ok (v, end)
    → next_field d at' ≡ ok (record { field_number = n; wire_type = w; value = v }, end)
unfolding next_field
next_field-parts d at' tag after w n end v e1 e2 e3 e4 = rw (e1, e2, e3, e4) refl

fields_from-step :
    (fuel : ℕ) (d : List ℕ) (at' end : ℕ) (f : Field)
    → at' < length d
    → next_field d at' ≡ ok (f, end)
    → fields_from (suc fuel) d at' ≡ (f ∷ (fields_from fuel d end).0, (fields_from fuel d end).1)
unfolding fields_from
fields_from-step fuel d at' end f h e = rw e (ground arith)

abbrev packed : Result WireError (List ℕ) → List ℕ
packed (ok bytes) = bytes
packed (err e) = []

module _ {F : Type 0} (pack_single : F → Result WireError (List ℕ)) (pack_double : F → List ℕ) where
  -- The encoder of an item, and of a message: its fields one behind the other.
  abbrev pub encode_item : Item F → Result WireError (List ℕ)
  encode_item (varint_item n v) = encode_varint_field n (pos v)
  encode_item (bytes_item n raw) = encode_bytes_field n raw
  encode_item (fixed32_item n x) = encode_fixed32_field pack_single n x
  encode_item (fixed64_item n x) = encode_fixed64_field pack_double n x

  unfoldable pub encode_message : List (Item F) → Result WireError (List ℕ)
  encode_message [] = ok []
  encode_message (i ∷ items) = do
    first ← encode_item i
    rest ← encode_message items
    ok (first ++ rest)

  abbrev number_of : Item F → ℕ
  number_of (varint_item n v) = n
  number_of (bytes_item n raw) = n
  number_of (fixed32_item n x) = n
  number_of (fixed64_item n x) = n

  abbrev type_of : Item F → ℕ
  type_of (varint_item n v) = 0
  type_of (bytes_item n raw) = 2
  type_of (fixed32_item n x) = 5
  type_of (fixed64_item n x) = 1

  abbrev value_of : Item F → FieldValue
  value_of (varint_item n v) = int_field v
  value_of (bytes_item n raw) = bytes_field raw
  value_of (fixed32_item n x) = bytes_field (packed (pack_single x))
  value_of (fixed64_item n x) = bytes_field (pack_double x)

  -- What a reader sees of an item.
  abbrev pub field_of : Item F → Field
  field_of i = record { field_number = number_of i; wire_type = type_of i; value = value_of i }

  -- The bytes behind the tag, and all bytes.
  abbrev body : Item F → List ℕ
  body (varint_item n v) = varint v
  body (bytes_item n raw) = varint (length raw) ++ raw
  body (fixed32_item n x) = packed (pack_single x)
  body (fixed64_item n x) = pack_double x

  abbrev item_bytes : Item F → List ℕ
  item_bytes i = varint (number_of i * 8 + type_of i) ++ body i

  abbrev message_bytes : List (Item F) → List ℕ
  message_bytes [] = []
  message_bytes (i ∷ items) = item_bytes i ++ message_bytes items

  type_of_fits : (i : Item F) → type_of i < 8
  type_of_fits (varint_item n v) = omega arith
  type_of_fits (bytes_item n raw) = omega arith
  type_of_fits (fixed32_item n x) = omega arith
  type_of_fits (fixed64_item n x) = omega arith

  -- A single-precision float is within its range.
  abbrev pub IsPackable : Item F → Type 0
  IsPackable (varint_item n v) = Unit {0}
  IsPackable (bytes_item n raw) = Unit {0}
  IsPackable (fixed32_item n x) = (bytes : List ℕ) × (pack_single x ≡ ok bytes)
  IsPackable (fixed64_item n x) = Unit {0}

  tag-bytes : (n w : ℕ) → w < 8 → encode_tag n w ≡ ok (varint (n * 8 + w))
  unfolding encode_tag
  tag-bytes n w h = rw (bit_or-low n w h) (encode_varint-bytes (n * 8 + w))

  encode_item-bytes : (i : Item F) → IsPackable i → encode_item i ≡ ok (item_bytes i)
  unfolding encode_varint_field encode_bytes_field encode_fixed32_field encode_fixed64_field
  encode_item-bytes (varint_item n v) p =
      rw (tag-bytes n 0 (omega arith), encode_varint-bytes v) refl
  encode_item-bytes (bytes_item n raw) p =
      rw (tag-bytes n 2 (omega arith), encode_varint-bytes (length raw)) refl
  encode_item-bytes (fixed32_item n x) p = rw (tag-bytes n 5 (omega arith), p.1) refl
  encode_item-bytes (fixed64_item n x) p = rw (tag-bytes n 1 (omega arith)) refl

  encode_message-bytes :
      (items : List (Item F))
      → All IsPackable items
      → encode_message items ≡ ok (message_bytes items)
  unfolding encode_message
  encode_message-bytes [] p = refl
  encode_message-bytes (i ∷ items) p =
      rw (encode_item-bytes i p.0, encode_message-bytes items p.1) refl

  module _
      (pack_single-length : (x : F) (bytes : List ℕ) → pack_single x ≡ ok bytes → length bytes ≡ 4)
      (pack_double-length : (x : F) → length (pack_double x) ≡ 8) where
    packed-length :
        (x : F)
        → (bytes : List ℕ) × (pack_single x ≡ ok bytes)
        → length (packed (pack_single x)) ≡ 4
    packed-length x (bytes, e) = ap (λ r. length (packed r)) e ∙ pack_single-length x bytes e

    field_value-body :
        (i : Item F) (before rest : List ℕ)
        → IsPackable i
        → field_value (before ++ (body i ++ rest)) (type_of i) (length before)
          ≡ ok (value_of i, length before + length (body i))
    unfolding field_value
    field_value-body (varint_item n v) before rest q = rw (decode_varint-bytes v before rest) refl
    field_value-body (bytes_item n raw) before rest q =
        rw (varint-behind (length raw) before raw rest)
          (payload-behind _ before (varint (length raw)) raw rest)
    field_value-body (fixed32_item n x) before rest q =
        ap (payload _ (before ++ (packed (pack_single x) ++ rest)) (length before))
          (sym (packed-length x q))
        ∙ payload-at _ before (packed (pack_single x)) rest
    field_value-body (fixed64_item n x) before rest q =
        ap (payload _ (before ++ (pack_double x ++ rest)) (length before))
          (sym (pack_double-length x))
        ∙ payload-at _ before (pack_double x) rest

    next_field-item :
        (i : Item F) (before rest : List ℕ)
        → IsPackable i
        → next_field (before ++ (item_bytes i ++ rest)) (length before)
          ≡ ok (field_of i, length before + length (item_bytes i))
    next_field-item i before rest q =
        let w : ℕ = type_of i in
        let tag : ℕ = number_of i * 8 + w in
        let small : w < 8 = type_of_fits i in
        let t : List ℕ = varint tag in
        next_field-parts (before ++ ((t ++ body i) ++ rest)) (length before) tag
          (length before + length t) w (number_of i) (length before + length (t ++ body i))
          (value_of i) (varint-behind tag before (body i) rest) (omega (arith, bit_and-seven tag))
          (omega arith)
          (ap (λ d. field_value d w (length before + length t)) (regroup before t (body i) rest)
            ∙ ap (field_value ((before ++ t) ++ (body i ++ rest)) w) (sym (length-append before t))
            ∙ field_value-body i (before ++ t) rest q
            ∙ ap (λ p. ok (value_of i, p)) (end-append before t (body i)))

    fields_from-message :
        (items : List (Item F)) (fuel : ℕ) (before : List ℕ)
        → All IsPackable items
        → length (message_bytes items) < fuel
        → fields_from fuel (before ++ message_bytes items) (length before)
          ≡ (map field_of items, none)
    unfolding fields_from
    fields_from-message items zero before p h = absurd (omega arith)
    fields_from-message [] (suc fuel) before p h = ground (arith, length-append before [])
    fields_from-message (i ∷ items) (suc fuel) before p h =
        let b : List ℕ = item_bytes i in
        let rest : List ℕ = message_bytes items in
        let some' : 1 ≤ length b = omega (
          arith,
          length-append (varint (number_of i * 8 + type_of i)) (body i),
          varint_bytes-some (number_of i * 8 + type_of i) (number_of i * 8 + type_of i),
        ) in
        let whole = length-append before (b ++ rest) in
        let parts = length-append b rest in
        let ih =
          fields_from-message items fuel (before ++ b) p.1 (omega (arith, h, some', parts)) in
        let ih' : fields_from fuel (before ++ (b ++ rest)) (length before + length b)
            ≡ (map field_of items, none) =
          ap (λ d. fields_from fuel d (length before + length b)) (sym (append_assoc before b rest))
          ∙ ap (fields_from fuel ((before ++ b) ++ rest)) (sym (length-append before b))
          ∙ ih in
        fields_from-step fuel (before ++ (b ++ rest)) (length before) (length before + length b)
          (field_of i) (omega (arith, whole, parts, some')) (next_field-item i before rest p.0)
        ∙ ap (λ p. (field_of i ∷ p.0, p.1)) ih'

    -- Where the packed forms of floats have four and eight bytes: any list of fields, of all four wire
    -- types and with any numbers and values in which no single-precision float is beyond its range,
    -- can be encoded, and `iter_fields` yields from the message those fields, in their order and each
    -- with its number, wire type and value, and ends without an error.
    pub iter_fields-encode_message :
        (items : List (Item F))
        → All IsPackable items
        → (data' : List ℕ) × (encode_message items ≡ ok data')
          × (iter_fields data' ≡ (map field_of items, none))
    unfolding iter_fields
    iter_fields-encode_message items p = (
      message_bytes items,
      encode_message-bytes items p,
      fields_from-message items (suc (length (message_bytes items))) [] p (omega arith),
    )

-- ===== src/Modbus/Datatypes/Formats.antt =====
-- The rows of the type table of xedge/drivers/modbus/datatypes.py, and how each format packs and
-- unpacks integers.
use xedge.Prelude.{
  ℕ, ◌*◌, ◌≡◌, refl, ap, ◌∙◌, ◌⊎◌, inl, inr, String, Bool, true, false, not, Option, none, some,
  List, All, length,
}
use xedge.Prelude.Int.{ℤ, pos}
use xedge.Prelude.Assoc.{get, get-All}
use xedge.Prelude.Results.{ok}
use xedge.Modbus.Codec.Frames.{IsByte}
use xedge.Modbus.Datatypes.{
  FormatChar, fmt_H, fmt_h, fmt_I, fmt_i, fmt_f, fmt_Q, fmt_q, fmt_d, Floats, int_value, type_spec,
  is_float, from_be, as_signed, pack_value, unpack_value,
}
use xedge.Modbus.Datatypes.Integers.{
  pack_unsigned_inv, pack_signed_inv, pack_signed-as_signed, pack_unsigned-pos, be_bytes-from_be,
}

abbrev pub integer_format : FormatChar → Bool
integer_format fmt_f = false
integer_format fmt_d = false
integer_format _ = true

abbrev pub registers_of : FormatChar → ℕ
registers_of fmt_H = 1
registers_of fmt_h = 1
registers_of fmt_Q = 4
registers_of fmt_q = 4
registers_of fmt_d = 4
registers_of _ = 2

-- A row of the table: the count of the format, and whether the name is that of a float.
abbrev Sound : String × (FormatChar × ℕ) → Type 0
Sound (data_type, (fmt, count)) =
    (count ≡ registers_of fmt) × (is_float data_type ≡ not (integer_format fmt))

type_spec-Sound : All Sound type_spec
unfolding type_spec is_float
type_spec-Sound = (
  (refl, refl),
  (
    (refl, refl),
    (
      (refl, refl),
      ((refl, refl), ((refl, refl), ((refl, refl), ((refl, refl), ((refl, refl), tt))))),
    ),
  ),
)

pub type_spec_row :
    (data_type : String) (fmt : FormatChar) (count : ℕ)
    → get type_spec data_type ≡ some (fmt, count)
    → Sound (data_type, (fmt, count))
type_spec_row data_type fmt count e =
    get-All Sound type_spec data_type (fmt, count) type_spec-Sound e

pub row_cases :
    (data_type : String)
    → (get type_spec data_type ≡ none)
      ⊎ ((fmt : FormatChar) × (count : ℕ) × (get type_spec data_type ≡ some (fmt, count)))
row_cases data_type = cases (get type_spec data_type)
  where
    cases :
        (o : Option (FormatChar × ℕ))
        → (o ≡ none) ⊎ ((fmt : FormatChar) × (count : ℕ) × (o ≡ some (fmt, count)))
    cases none = inl refl
    cases (some (fmt, count)) = inr (fmt, count, refl)

module _ {F : Type 0} (fl : Floats F) where
  pub pack_value_inv :
      (fmt : FormatChar) (n : ℤ) (raw : List ℕ)
      → integer_format fmt ≡ true
      → pack_value fl fmt (int_value n) ≡ ok raw
      → (unpack_value fl fmt raw ≡ int_value n)
        × (length raw ≡ 2 * registers_of fmt)
        × All IsByte raw
  unfolding pack_value unpack_value
  pack_value_inv fmt_H n raw i e =
      let (v, l, b) = pack_unsigned_inv 2 n raw e in (ap int_value v, l, b)
  pack_value_inv fmt_I n raw i e =
      let (v, l, b) = pack_unsigned_inv 4 n raw e in (ap int_value v, l, b)
  pack_value_inv fmt_Q n raw i e =
      let (v, l, b) = pack_unsigned_inv 8 n raw e in (ap int_value v, l, b)
  pack_value_inv fmt_h n raw i e =
      let (v, l, b) = pack_signed_inv 2 32768 n raw refl e in (ap int_value v, l, b)
  pack_value_inv fmt_i n raw i e =
      let (v, l, b) = pack_signed_inv 4 2147483648 n raw refl e in (ap int_value v, l, b)
  pack_value_inv fmt_q n raw i e =
      let (v, l, b) = pack_signed_inv 8 9223372036854775808 n raw refl e in (ap int_value v, l, b)
  pack_value_inv fmt_f n raw i e = absurd (cc)
  pack_value_inv fmt_d n raw i e = absurd (cc)

  -- The other way round: the bytes of a format are the bytes of the number that they stand for.
  pub pack-unpack_value :
      (fmt : FormatChar) (raw : List ℕ)
      → integer_format fmt ≡ true
      → length raw ≡ 2 * registers_of fmt
      → All IsByte raw
      → (n : ℤ) × (unpack_value fl fmt raw ≡ int_value n)
        × (pack_value fl fmt (int_value n) ≡ ok raw)
  unfolding pack_value unpack_value
  pack-unpack_value fmt_H raw i l b =
      let (same, fits) = be_bytes-from_be 2 raw l b in
      (pos (from_be 0 raw), refl, pack_unsigned-pos 2 (from_be 0 raw) fits ∙ ap ok same)
  pack-unpack_value fmt_I raw i l b =
      let (same, fits) = be_bytes-from_be 4 raw l b in
      (pos (from_be 0 raw), refl, pack_unsigned-pos 4 (from_be 0 raw) fits ∙ ap ok same)
  pack-unpack_value fmt_Q raw i l b =
      let (same, fits) = be_bytes-from_be 8 raw l b in
      (pos (from_be 0 raw), refl, pack_unsigned-pos 8 (from_be 0 raw) fits ∙ ap ok same)
  pack-unpack_value fmt_h raw i l b =
      let (same, fits) = be_bytes-from_be 2 raw l b in
      (
        as_signed 2 (from_be 0 raw),
        refl,
        pack_signed-as_signed 2 32768 (from_be 0 raw) refl fits ∙ ap ok same,
      )
  pack-unpack_value fmt_i raw i l b =
      let (same, fits) = be_bytes-from_be 4 raw l b in
      (
        as_signed 4 (from_be 0 raw),
        refl,
        pack_signed-as_signed 4 2147483648 (from_be 0 raw) refl fits ∙ ap ok same,
      )
  pack-unpack_value fmt_q raw i l b =
      let (same, fits) = be_bytes-from_be 8 raw l b in
      (
        as_signed 8 (from_be 0 raw),
        refl,
        pack_signed-as_signed 8 9223372036854775808 (from_be 0 raw) refl fits ∙ ap ok same,
      )
  pack-unpack_value fmt_f raw i l b = absurd (cc)
  pack-unpack_value fmt_d raw i l b = absurd (cc)

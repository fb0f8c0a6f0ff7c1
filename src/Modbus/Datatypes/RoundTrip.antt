-- ===== src/Modbus/Datatypes/RoundTrip.antt =====
-- What `encode` of xedge/drivers/modbus/datatypes.py writes, `decode` reads, and the other way round,
-- for the integer types in every word order and byte order.
use mathlib.Core.List.{reverse, reverse-cons, reverse-reverse}
use xedge.Prelude.{
  ℕ, ◌+◌, ◌*◌, ◌/◌, ◌%◌, ◌<◌, ◌≡◌, refl, sym, ap, ◌∙◌, inl, inr, String, true, false, none, some,
  List, [], ◌∷◌, subst, All, All-append, arith, length, length-append, take-all,
}
use xedge.Prelude.Int.{ℤ, pos}
use xedge.Prelude.Assoc.{get}
use xedge.Prelude.Results.{ok, err, ok_of_bind, ok_inj}
use xedge.Modbus.Codec.Registers.{IsRegister}
use xedge.Modbus.Datatypes.{
  FormatChar, Order, big, little, Floats, Value, int_value, unknown_data_type, type_spec,
  register_count, is_float, from_be, pack_value, unpack_value, join_words, split_words,
  in_word_order, coerce, decode, encode,
}
use xedge.Modbus.Datatypes.Formats.{
  integer_format, registers_of, type_spec_row, row_cases, pack_value_inv, pack-unpack_value,
}
use xedge.Modbus.Datatypes.Orders.{split-join, join-split, length-join, join-IsByte}

length-reverse : (l : List ℕ) → length (reverse l) ≡ length l
length-reverse [] = refl
length-reverse (x ∷ l) =
    rw (reverse-cons x l) (omega (arith, length-append (reverse l) (x ∷ []), length-reverse l))

reverse-IsRegister : (l : List ℕ) → All IsRegister l → All IsRegister (reverse l)
reverse-IsRegister [] h = tt
reverse-IsRegister (x ∷ l) h =
    rw (reverse-cons x l)
      (All-append IsRegister (reverse l) (x ∷ []) (reverse-IsRegister l h.1) (h.0, tt))

word_order_undone : (o : Order) (l : List ℕ) → in_word_order o (in_word_order o l) ≡ l
word_order_undone big l = refl
word_order_undone little l = reverse-reverse l

length-word_order : (o : Order) (l : List ℕ) → length (in_word_order o l) ≡ length l
length-word_order big l = refl
length-word_order little l = length-reverse l

word_order-IsRegister :
    (o : Order) (l : List ℕ) → All IsRegister l → All IsRegister (in_word_order o l)
word_order-IsRegister big l h = h
word_order-IsRegister little l h = reverse-IsRegister l h

module _ {F : Type 0} (fl : Floats F) where
  encode-missing :
      (v : Value F) (data_type : String) (word_order byte_order : Order) (registers : List ℕ)
      → get type_spec data_type ≡ none
      → encode fl v data_type word_order byte_order ≡ ok registers
      → ⊥
  unfolding encode
  encode-missing v data_type word_order byte_order registers missing e = ground arith

  encode_inv :
      (n : ℤ) (data_type : String) (fmt : FormatChar) (count : ℕ) (word_order byte_order : Order)
      (registers : List ℕ)
      → get type_spec data_type ≡ some (fmt, count)
      → is_float data_type ≡ false
      → encode fl (int_value n) data_type word_order byte_order ≡ ok registers
      → (raw : List ℕ) × (pack_value fl fmt (int_value n) ≡ ok raw)
        × (registers ≡ in_word_order word_order (split_words byte_order raw))
  unfolding encode coerce
  encode_inv n data_type fmt count word_order byte_order registers row i e =
      let e' = rw (row, i, encode, coerce) at e in
      let (raw, packed, rest) = ok_of_bind (pack_value fl fmt (int_value n)) _ e' in
      (raw, packed, ok_inj (sym rest))

  decode_row :
      (data_type : String) (fmt : FormatChar) (count : ℕ) (word_order byte_order : Order)
      (registers : List ℕ)
      → get type_spec data_type ≡ some (fmt, count)
      → length registers ≡ count
      → decode fl registers data_type word_order byte_order
        ≡ ok (unpack_value fl fmt (join_words byte_order (in_word_order word_order registers)))
  unfolding decode
  decode_row data_type fmt count word_order byte_order registers row n =
      rw (row, decode) (ground (arith, take-all count registers))

  register_count_row :
      (data_type : String) (fmt : FormatChar) (count : ℕ)
      → get type_spec data_type ≡ some (fmt, count)
      → register_count data_type ≡ ok count
  unfolding register_count
  register_count_row data_type fmt count row = rw (row, register_count) refl

  -- For every integer type, in both word orders and both byte orders: when `encode` takes a number,
  -- it gives as many registers of 16 bits as the type occupies, and `decode` reads the number back
  -- from them.
  pub decode-encode :
      (n : ℤ) (data_type : String) (word_order byte_order : Order) (registers : List ℕ)
      → is_float data_type ≡ false
      → encode fl (int_value n) data_type word_order byte_order ≡ ok registers
      → (decode fl registers data_type word_order byte_order ≡ ok (int_value n))
        × (register_count data_type ≡ ok (length registers))
        × All IsRegister registers
  decode-encode n data_type word_order byte_order registers i e = elim (row_cases data_type) [
    | inl missing ↦
        absurd (encode-missing (int_value n) data_type word_order byte_order registers missing e)
    | inr (fmt, count, row) ↦
        let (is_count, is_fmt) = type_spec_row data_type fmt count row in
        let int : integer_format fmt ≡ true = ground arith in
        let (raw, packed, is_regs) =
          encode_inv n data_type fmt count word_order byte_order registers row i e in
        let (value, len, bytes) = pack_value_inv fl fmt n raw int packed in
        let (same, words, fits) = join-split byte_order (registers_of fmt) raw len bytes in
        let split : List ℕ = split_words byte_order raw in
        let whole : length registers ≡ count =
          ap (λ (l : List ℕ). length l) is_regs
          ∙ length-word_order word_order split
          ∙ words
          ∙ sym is_count in
        let undone : in_word_order word_order registers ≡ split =
          ap (in_word_order word_order) is_regs ∙ word_order_undone word_order split in
        (
          decode_row data_type fmt count word_order byte_order registers row whole
              ∙ ap (λ l. ok (unpack_value fl fmt (join_words byte_order l))) undone
              ∙ ap (λ l. ok (unpack_value fl fmt l)) same
              ∙ ap ok value,
          register_count_row data_type fmt count row ∙ ap ok (sym whole),
          subst (λ l. All IsRegister l) (sym is_regs) (word_order-IsRegister word_order split fits),
        )
  ]

  encode_row :
      (n : ℤ) (data_type : String) (fmt : FormatChar) (count : ℕ) (word_order byte_order : Order)
      (raw : List ℕ)
      → get type_spec data_type ≡ some (fmt, count)
      → is_float data_type ≡ false
      → pack_value fl fmt (int_value n) ≡ ok raw
      → encode fl (int_value n) data_type word_order byte_order
        ≡ ok (in_word_order word_order (split_words byte_order raw))
  unfolding encode coerce
  encode_row n data_type fmt count word_order byte_order raw row i packed =
      rw (row, i, packed, encode, coerce) refl

  register_count-missing :
      (data_type : String)
      → get type_spec data_type ≡ none
      → register_count data_type ≡ err unknown_data_type
  unfolding register_count
  register_count-missing data_type missing = rw (missing, register_count) refl

  register_count_inv :
      (data_type : String) (n : ℕ)
      → register_count data_type ≡ ok n
      → (fmt : FormatChar) × (get type_spec data_type ≡ some (fmt, n))
  register_count_inv data_type n e = elim (row_cases data_type) [
    | inl missing ↦ absurd (cc (register_count-missing data_type missing))
    | inr (fmt, count, row) ↦
        let same : count ≡ n = ok_inj (sym (register_count_row data_type fmt count row) ∙ e) in
        (fmt, row ∙ ap (λ c. some (fmt, c)) same)
  ]

  -- Every list of 16-bit registers, as many as an integer type occupies, is the encoding of a number:
  -- `decode` gives the number, and `encode` gives the registers back, in every word order and byte
  -- order.
  pub encode-decode :
      (data_type : String) (word_order byte_order : Order) (registers : List ℕ)
      → is_float data_type ≡ false
      → register_count data_type ≡ ok (length registers)
      → All IsRegister registers
      → (n : ℤ) × (decode fl registers data_type word_order byte_order ≡ ok (int_value n))
        × (encode fl (int_value n) data_type word_order byte_order ≡ ok registers)
  encode-decode data_type word_order byte_order registers i e h =
      let (fmt, row) = register_count_inv data_type (length registers) e in
      let (is_count, is_fmt) = type_spec_row data_type fmt (length registers) row in
      let int : integer_format fmt ≡ true = ground arith in
      let ordered : List ℕ = in_word_order word_order registers in
      let raw : List ℕ = join_words byte_order ordered in
      let len : length raw ≡ 2 * registers_of fmt =
        omega (
          arith,
          length-join byte_order ordered,
          length-word_order word_order registers,
          is_count,
        ) in
      let (n, value, packed) =
        pack-unpack_value fl fmt raw int len (join-IsByte byte_order ordered) in
      (
        n,
        decode_row data_type fmt (length registers) word_order byte_order registers row refl
            ∙ ap ok value,
        encode_row n data_type fmt (length registers) word_order byte_order raw row i packed
            ∙ ap (λ l. ok (in_word_order word_order l))
                (split-join byte_order ordered (word_order-IsRegister word_order registers h))
            ∙ ap ok (word_order_undone word_order registers),
      )

  -- The value of a register in a byte order, and of two registers in a word order.
  abbrev in_byte_order : Order → ℕ → ℕ
  in_byte_order big w = w
  in_byte_order little w = w % 256 * 256 + w / 256

  abbrev two_words : Order → ℕ → ℕ → ℕ
  two_words big w v = w * 65536 + v
  two_words little w v = v * 65536 + w

  -- A `uint32` is the sum of its two registers, the high one times 65536: the first register is the
  -- high one in the big word order and the low one in the little word order, and the little byte
  -- order swaps the bytes of each. Further registers are ignored.
  pub decode_uint32 :
      (word_order byte_order : Order) (w v : ℕ) (rest : List ℕ)
      → w < 65536
      → v < 65536
      → decode fl (w ∷ v ∷ rest) "uint32" word_order byte_order
        ≡ ok (
            int_value (
              pos (two_words word_order (in_byte_order byte_order w) (in_byte_order byte_order v))))
  unfolding decode type_spec get unpack_value join_words from_be
  decode_uint32 big big w v rest h l = ground arith
  decode_uint32 big little w v rest h l = ground arith
  decode_uint32 little big w v rest h l = ground arith
  decode_uint32 little little w v rest h l = ground arith

-- ===== src/Sparkplug/Wire/Varints.antt =====
-- Varints of xedge/northbound/sparkplug/wire.py: what `encode_varint` writes, `decode_varint` reads.
use Prim.Native.Nat.{bit_and, bit_or}
use native.Mathlib.Nat.{mul_assoc, add-mul, mul-le-mul_right}
use xedge.Prelude.{
  ℕ, zero, suc, ◌+◌, ◌*◌, ◌/◌, ◌%◌, ◌^◌, ◌≤◌, ◌<◌, ◌≡◌, refl, sym, ap, ◌∙◌, inl, inr, true, List,
  [], ◌∷◌, ◌++◌, arith, length, ltb, ◌==◌, Bool-cases, drop-length_append,
}
use xedge.Prelude.Int.{pos}
use xedge.Prelude.Bits.{passes_below, eq_below}
use xedge.Prelude.Masks.{bit_or-add, bit_and-127}
use xedge.Prelude.Results.{ok}
use xedge.Modbus.Codec.Registers.{flag_of}
use xedge.Sparkplug.Wire.{varint_bytes, varint_from, encode_varint, decode_varint}

more_table : passes_below (λ b. bit_or b 0x80 == b + 128) 128 ≡ true
unfolding passes_below
more_table = refl

marked : (b : ℕ) → b < 128 → bit_or b 0x80 ≡ b + 128
marked b h = eq_below (λ b. bit_or b 0x80) (λ b. b + 128) 128 more_table b h

-- The bytes of a value, by its last seven bits.
varint_bytes-last : (fuel v : ℕ) → v < 128 → varint_bytes (suc fuel) v ≡ v ∷ []
unfolding varint_bytes
varint_bytes-last fuel v h = ground (arith, bit_and-127 v)

varint_bytes-more :
    (fuel v : ℕ)
    → 128 ≤ v
    → varint_bytes (suc fuel) v ≡ (v % 128 + 128) ∷ varint_bytes fuel (v / 128)
unfolding varint_bytes
varint_bytes-more fuel v h = ground (arith, bit_and-127 v, marked (v % 128) (omega arith))

-- A byte of a varint, read.
varint_from-last :
    (b : ℕ) (rest : List ℕ) (at' r s : ℕ)
    → b < 128
    → r < 2 ^ s
    → varint_from (b ∷ rest) at' r s ≡ ok (r + b * 2 ^ s, at' + 1)
unfolding varint_from
varint_from-last b rest at' r s h l =
    let low : bit_and b 127 ≡ b = omega (arith, bit_and-127 b) in
    rw (low, bit_or-add s r b (b * 2 ^ s) l refl) (ground (arith, flag_of b (omega arith)))

varint_from-more :
    (b : ℕ) (rest : List ℕ) (at' r s : ℕ)
    → b < 128
    → r < 2 ^ s
    → varint_from ((b + 128) ∷ rest) at' r s ≡ varint_from rest (at' + 1) (r + b * 2 ^ s) (s + 7)
unfolding varint_from
varint_from-more b rest at' r s h l =
    let low : bit_and (b + 128) 127 ≡ b = omega (arith, bit_and-127 (b + 128)) in
    rw (low, bit_or-add s r b (b * 2 ^ s) l refl) (ground (arith, flag_of (b + 128) (omega arith)))

power_step : (s : ℕ) → 2 ^ (s + 7) ≡ 128 * 2 ^ s
power_step s =
    let seven : s + 7 ≡ suc (suc (suc (suc (suc (suc (suc s)))))) = omega arith in
    ap (λ k. 2 ^ k) seven ∙ omega arith

low_fits : (b p : ℕ) → b < 128 → b * p + p ≤ 128 * p
low_fits b p h =
    let scaled : (b + 1) * p ≤ 128 * p = mul-le-mul_right p (omega arith) in
    omega (arith, scaled, add-mul b 1 p)

value_split : (v p : ℕ) → v % 128 * p + v / 128 * (128 * p) ≡ v * p
value_split v p =
    ap (λ t. v % 128 * p + t) (sym (mul_assoc (v / 128) 128 p))
    ∙ sym (add-mul (v % 128) (v / 128 * 128) p)
    ∙ ap (λ t. t * p) (omega arith)

same : (v p r q : ℕ) → q ≡ 128 * p → r + v % 128 * p + v / 128 * q ≡ r + v * p
same v p r q h = ap (λ t. r + v % 128 * p + v / 128 * t) h ∙ omega (arith, value_split v p)

pair_eq : {a b c d : ℕ} → a ≡ b → c ≡ d → ◌≡◌ {A = ℕ × ℕ} (a, c) (b, d)
pair_eq h l = λ i. (h i, l i)

varint_from-bytes :
    (fuel v : ℕ) (rest : List ℕ) (at' r s : ℕ)
    → v < fuel
    → r < 2 ^ s
    → varint_from (varint_bytes fuel v ++ rest) at' r s
      ≡ ok (r + v * 2 ^ s, at' + length (varint_bytes fuel v))
varint_from-bytes zero v rest at' r s h l = absurd (omega arith)
varint_from-bytes (suc fuel) v rest at' r s h l = elim (Bool-cases (ltb v 128)) [
  | inl small ↦
      let small' : v < 128 = ground arith in
      rw (varint_bytes-last fuel v small') (varint_from-last v rest at' r s small' l)
  | inr large ↦
      let large' : 128 ≤ v = ground arith in
      let b : ℕ = v % 128 in
      let r' : ℕ = r + b * 2 ^ s in
      let fits : r' < 2 ^ (s + 7) = omega (arith, low_fits b (2 ^ s) (omega arith), power_step s) in
      let further = varint_from-bytes fuel (v / 128) rest (at' + 1) r' (s + 7) (omega arith) fits in
      rw (varint_bytes-more fuel v large') (
        varint_from-more b (varint_bytes fuel (v / 128) ++ rest) at' r s (omega arith) l
        ∙ further
        ∙ ap ok (pair_eq (same v (2 ^ s) r (2 ^ (s + 7)) (power_step s)) (omega arith)))
]

pub varint_bytes-some : (fuel v : ℕ) → 1 ≤ length (varint_bytes (suc fuel) v)
unfolding varint_bytes
varint_bytes-some fuel v = ground arith

pub encode_varint-bytes : (v : ℕ) → encode_varint (pos v) ≡ ok (varint_bytes (suc v) v)
unfolding encode_varint
encode_varint-bytes v = refl

decode_varint-at :
    (before rest : List ℕ)
    → decode_varint (before ++ rest) (length before) ≡ varint_from rest (length before) 0 0
unfolding decode_varint
decode_varint-at before rest = rw (drop-length_append before rest (length before) refl) refl

pub decode_varint-bytes :
    (v : ℕ) (before rest : List ℕ)
    → decode_varint (before ++ (varint_bytes (suc v) v ++ rest)) (length before)
      ≡ ok (v, length before + length (varint_bytes (suc v) v))
decode_varint-bytes v before rest =
    decode_varint-at before (varint_bytes (suc v) v ++ rest)
    ∙ varint_from-bytes (suc v) v rest (length before) 0 0 (omega arith) (omega arith)
    ∙ ap ok (pair_eq (omega arith) refl)

-- Whatever stands before and behind it, the varint that `encode_varint` returns for a value is read by
-- `decode_varint` as that value, and reading ends right behind it.
pub decode_varint-encode_varint :
    (v : ℕ) (before rest : List ℕ)
    → (bytes : List ℕ) × (encode_varint (pos v) ≡ ok bytes)
      × (1 ≤ length bytes)
      × (decode_varint (before ++ (bytes ++ rest)) (length before)
          ≡ ok (v, length before + length bytes))
decode_varint-encode_varint v before rest = (
  varint_bytes (suc v) v,
  encode_varint-bytes v,
  varint_bytes-some v v,
  decode_varint-bytes v before rest,
)

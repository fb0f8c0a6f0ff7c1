-- ===== src/Modbus/Codec/Coils.antt =====
-- Coil PDUs of xedge/drivers/modbus/codec.py: bits are packed eight to a byte, lowest first, and
-- read back in that order.
use Prim.Native.Nat.{bit_and, bit_and-bitwise, bit_or}
use xedge.Prelude.{
  ℕ, zero, suc, ◌+◌, ◌-◌, ◌*◌, ◌/◌, ◌%◌, ◌^◌, ◌≤◌, ◌<◌, ◌≡◌, refl, ap, ◌∙◌, inl, inr, Bool, true,
  false, not, ◌&&◌, ◌||◌, List, [], ◌∷◌, arith, length, get_or, set, take, drop, replicate, All,
  leb, ltb, ◌==◌, ==_iff, if◌then◌else◌, Bool-cases, take-all,
}
use xedge.Prelude.Int.{pos}
use xedge.Prelude.Writes.{length-set}
use xedge.Prelude.Bits.{passes_below, passes_below-at}
use xedge.Prelude.Results.{ok}
use xedge.Modbus.Codec.{
  test_bit, bits_from, pack_coils, byte_at, decode_bits_response, encode_write_multiple_coils,
  decode_write_multiple_response,
}
use xedge.Modbus.Codec.Frames.{IsByte}
use xedge.Modbus.Codec.Registers.{flag_of}

abbrev same_bool : Bool → Bool → Bool
same_bool true b = b
same_bool false b = not b

same_bool→eq : (a b : Bool) → same_bool a b ≡ true → a ≡ b
same_bool→eq a b h = ground arith

-- Setting bit `k` of a byte and reading bit `m`, for every byte and every pair of bits.
abbrev or_case : ℕ → Bool
or_case x =
    let b = x / 64 in
    let k = x / 8 % 8 in
    let m = x % 8 in same_bool (test_bit (bit_or b (2 ^ k)) m) (k == m || test_bit b m)

or_table : passes_below or_case 16384 ≡ true
unfolding passes_below
or_table = refl

or_fits_table : passes_below (λ x. ltb (bit_or (x / 8) (2 ^ (x % 8))) 256) 2048 ≡ true
unfolding passes_below
or_fits_table = refl

test_bit-or :
    (b k m : ℕ) → b < 256 → k < 8 → m < 8 → test_bit (bit_or b (2 ^ k)) m ≡ (k == m || test_bit b m)
test_bit-or b k m hb hk hm =
    let e1 : (b * 64 + k * 8 + m) / 64 ≡ b = omega arith in
    let e2 : (b * 64 + k * 8 + m) / 8 % 8 ≡ k = omega arith in
    let e3 : (b * 64 + k * 8 + m) % 8 ≡ m = omega arith in
    let t : or_case (b * 64 + k * 8 + m) ≡ true =
      passes_below-at or_case 16384 (b * 64 + k * 8 + m) (omega arith) or_table in
    same_bool→eq _ _ (rw (e1, e2, e3) at t)

bit_or_fits : (b k : ℕ) → b < 256 → k < 8 → bit_or b (2 ^ k) < 256
bit_or_fits b k hb hk =
    let e1 : (b * 8 + k) / 8 ≡ b = omega arith in
    let e2 : (b * 8 + k) % 8 ≡ k = omega arith in
    let t : ltb (bit_or ((b * 8 + k) / 8) (2 ^ ((b * 8 + k) % 8))) 256 ≡ true =
      passes_below-at (λ x. ltb (bit_or (x / 8) (2 ^ (x % 8))) 256) 2048 (b * 8 + k) (omega arith)
        or_fits_table in
    let t' : ltb (bit_or b (2 ^ k)) 256 ≡ true = rw (e1, e2) at t in ground arith

-- Bit `j` of a packed text.
abbrev bit : List ℕ → ℕ → Bool
bit packed j = test_bit (get_or packed (j / 8) 0) (j % 8)

get_or-set :
    (xs : List ℕ) (i j v : ℕ)
    → i < length xs
    → get_or (set xs i v) j 0 ≡ (if i == j then v else get_or xs j 0)
get_or-set [] i j v h = absurd (omega arith)
get_or-set (x ∷ xs) zero zero v h = refl
get_or-set (x ∷ xs) zero (suc j) v h = ground arith
get_or-set (x ∷ xs) (suc i) zero v h = ground arith
get_or-set (x ∷ xs) (suc i) (suc j) v h = ground (arith, get_or-set xs i j v)

get_or-IsByte : (xs : List ℕ) (i : ℕ) → All IsByte xs → get_or xs i 0 < 256
get_or-IsByte [] i h = omega arith
get_or-IsByte (x ∷ xs) zero h = h.0
get_or-IsByte (x ∷ xs) (suc i) h = get_or-IsByte xs i h.1

set-IsByte : (xs : List ℕ) (i v : ℕ) → All IsByte xs → v < 256 → All IsByte (set xs i v)
set-IsByte [] i v h hv = tt
set-IsByte (x ∷ xs) zero v h hv = (hv, h.1)
set-IsByte (x ∷ xs) (suc i) v h hv = (h.0, set-IsByte xs i v h.1 hv)

-- One round of the packing loop.
abbrev put_coil : ℕ → Bool → List ℕ → List ℕ
put_coil i b packed =
    if b then set packed (i / 8) (bit_or (get_or packed (i / 8) 0) (2 ^ (i % 8))) else packed

bit-put_coil :
    (i j : ℕ) (b : Bool) (packed : List ℕ)
    → All IsByte packed
    → i < 8 * length packed
    → bit (put_coil i b packed) j ≡ ((i == j && b) || bit packed j)
bit-put_coil i j false packed h l = ground arith
bit-put_coil i j true packed h l =
    let v : ℕ = bit_or (get_or packed (i / 8) 0) (2 ^ (i % 8)) in
    rw (get_or-set packed (i / 8) (j / 8) v (omega arith)) (elim (Bool-cases (i / 8 == j / 8)) [
      | inl same ↦
          let e : i / 8 ≡ j / 8 = (==_iff (i / 8) (j / 8)).0 same in
          rw
            (
              same,
              e,
              test_bit-or (get_or packed (j / 8) 0) (i % 8) (j % 8) (get_or-IsByte packed (j / 8) h)
                  (omega arith) (omega arith),
            )
            (ground arith)
      | inr other ↦ rw other (ground arith)
    ])

put_coil-IsByte :
    (i : ℕ) (b : Bool) (packed : List ℕ) → All IsByte packed → All IsByte (put_coil i b packed)
put_coil-IsByte i false packed h = h
put_coil-IsByte i true packed h =
    set-IsByte packed (i / 8) _ h
      (bit_or_fits (get_or packed (i / 8) 0) (i % 8) (get_or-IsByte packed (i / 8) h) (omega arith))

length-put_coil :
    (i : ℕ) (b : Bool) (packed : List ℕ) → length (put_coil i b packed) ≡ length packed
length-put_coil i false packed = refl
length-put_coil i true packed = length-set packed (i / 8) _

-- The first bit of the rest, and the others.
first_bit :
    (i j : ℕ) (b : Bool) (bits : List Bool) (old : Bool)
    → ((leb (i + 1) j && get_or bits (j - (i + 1)) false) || ((i == j && b) || old))
      ≡ ((leb i j && get_or (b ∷ bits) (j - i) false) || old)
first_bit i j b bits old = ground arith

pack_coils-bit :
    (i j : ℕ) (bits : List Bool) (packed : List ℕ)
    → All IsByte packed
    → i + length bits ≤ 8 * length packed
    → bit (pack_coils i bits packed) j ≡ ((leb i j && get_or bits (j - i) false) || bit packed j)
unfolding pack_coils
pack_coils-bit i j [] packed h l = ground arith
pack_coils-bit i j (b ∷ bits) packed h l =
    pack_coils-bit (i + 1) j bits (put_coil i b packed) (put_coil-IsByte i b packed h)
      (omega (arith, length-put_coil i b packed))
    ∙ rw (bit-put_coil i j b packed h (omega arith)) (first_bit i j b bits (bit packed j))

pack_coils-IsByte :
    (i : ℕ) (bits : List Bool) (packed : List ℕ)
    → All IsByte packed
    → All IsByte (pack_coils i bits packed) × (length (pack_coils i bits packed) ≡ length packed)
unfolding pack_coils
pack_coils-IsByte i [] packed h = (h, refl)
pack_coils-IsByte i (b ∷ bits) packed h =
    let (bytes, len) =
      pack_coils-IsByte (i + 1) bits (put_coil i b packed) (put_coil-IsByte i b packed h) in
    (bytes, len ∙ length-put_coil i b packed)

byte_at-ok : (xs : List ℕ) (i : ℕ) → i < length xs → byte_at xs i ≡ ok (get_or xs i 0)
byte_at-ok [] i h = absurd (omega arith)
byte_at-ok (x ∷ xs) zero h = refl
byte_at-ok (x ∷ xs) (suc i) h = byte_at-ok xs i (omega arith)

-- What the comprehension reads, if each bit is as told.
bits_from-ok :
    (bits : List Bool) (i : ℕ) (packed : List ℕ)
    → i + length bits ≤ 8 * length packed
    → ((j : ℕ) → j < length bits → bit packed (i + j) ≡ get_or bits j false)
    → bits_from packed i (length bits) ≡ ok bits
unfolding bits_from
bits_from-ok [] i packed l h = refl
bits_from-ok (b ∷ bits) i packed l h =
    let rest : bits_from packed (i + 1) (length bits) ≡ ok bits =
      bits_from-ok bits (i + 1) packed (omega arith)
        (λ j lt. let e : i + 1 + j ≡ i + suc j = omega arith in rw e (h (suc j) (omega arith))) in
    let z : i + 0 ≡ i = omega arith in
    let first : bit packed i ≡ b = rw z at (h 0 (omega arith)) in
    rw (byte_at-ok packed (i / 8) (omega arith)) (rw rest (rw first))

replicate-IsByte : (n : ℕ) → All IsByte (replicate n 0)
replicate-IsByte zero = tt
replicate-IsByte (suc n) = (omega arith, replicate-IsByte n)

length-replicate : (n : ℕ) → length (replicate {A = ℕ} n 0) ≡ n
length-replicate zero = refl
length-replicate (suc n) = ap suc (length-replicate n)

get_or-replicate : (n i : ℕ) → get_or (replicate {A = ℕ} n 0) i 0 ≡ 0
get_or-replicate zero i = refl
get_or-replicate (suc n) zero = refl
get_or-replicate (suc n) (suc i) = get_or-replicate n i

zero-bit_and : (b : ℕ) → bit_and 0 b ≡ 0
zero-bit_and b = bit_and-bitwise 0 b

abbrev coil_bytes : List Bool → List ℕ
coil_bytes bits = pack_coils 0 bits (replicate ((length bits + 7) / 8) 0)

sub_zero_case :
    (bits : List Bool) (j : ℕ)
    → ((leb 0 j && get_or bits (j - 0) false) || test_bit 0 (j % 8)) ≡ get_or bits j false
sub_zero_case bits j =
    let z : j - 0 ≡ j = omega arith in rw z (ground (arith, zero-bit_and (2 ^ (j % 8))))

coil_bytes-bit :
    (bits : List Bool) (j : ℕ)
    → j < length bits
    → bit (coil_bytes bits) (0 + j) ≡ get_or bits j false
coil_bytes-bit bits j h =
    let n : ℕ = (length bits + 7) / 8 in
    let z : 0 + j ≡ j = omega arith in
    rw z (
      pack_coils-bit 0 j bits (replicate n 0) (replicate-IsByte n)
        (omega (arith, length-replicate n))
      ∙ rw (get_or-replicate n (j / 8)) (sub_zero_case bits j))

length-coil_bytes : (bits : List Bool) → length (coil_bytes bits) ≡ (length bits + 7) / 8
length-coil_bytes bits =
    let n : ℕ = (length bits + 7) / 8 in
    (pack_coils-IsByte 0 bits (replicate n 0) (replicate-IsByte n)).1 ∙ length-replicate n

decode_bits-bytes :
    (f : ℕ) (bits : List Bool)
    → f < 128
    → decode_bits_response (f ∷ ((length bits + 7) / 8) ∷ coil_bytes bits) (length bits) ≡ ok bits
unfolding decode_bits_response
decode_bits-bytes f bits h = ground (
  arith,
  flag_of f,
  take-all (2 + (length bits + 7) / 8 - 2) (coil_bytes bits),
  length-coil_bytes bits,
  bits_from-ok bits 0 (coil_bytes bits) (omega (arith, length-coil_bytes bits))
      (coil_bytes-bit bits),
)

abbrev coils_pdu : ℕ → List Bool → List ℕ
coils_pdu a bits =
    15
    ∷ (a / 256)
    ∷ (a % 256)
    ∷ (length bits / 256)
    ∷ (length bits % 256)
    ∷ ((length bits + 7) / 8)
    ∷ coil_bytes bits

encode_coils-coils_pdu :
    (a : ℕ) (bits : List Bool)
    → a < 65536
    → 1 ≤ length bits
    → length bits ≤ 1968
    → encode_write_multiple_coils (pos a) bits ≡ ok (coils_pdu a bits)
unfolding encode_write_multiple_coils
encode_coils-coils_pdu a bits ha h1 h2 = ground arith

-- A write of 1 to 1968 coils at an address that fits 16 bits is encoded in at most 253 bytes; a
-- device that sends the same data bytes back in a read response is decoded to the same coils, and
-- its echo of the address and the quantity is decoded to those.
pub write_coils_round_trip :
    (a : ℕ) (bits : List Bool)
    → a < 65536
    → 1 ≤ length bits
    → length bits ≤ 1968
    → (pdu : List ℕ) × (encode_write_multiple_coils (pos a) bits ≡ ok pdu)
      × (length pdu ≤ 253)
      × (decode_bits_response (1 ∷ ((length bits + 7) / 8) ∷ drop 6 pdu) (length bits) ≡ ok bits)
      × (decode_write_multiple_response (take 5 pdu) ≡ ok (a, length bits))
write_coils_round_trip a bits ha h1 h2 = (
  coils_pdu a bits,
  encode_coils-coils_pdu a bits ha h1 h2,
  omega (arith, length-coil_bytes bits),
  decode_bits-bytes 1 bits (omega arith),
  unfold decode_write_multiple_response in ground arith,
)

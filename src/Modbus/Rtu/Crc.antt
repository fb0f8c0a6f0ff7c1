-- ===== src/Modbus/Rtu/Crc.antt =====
-- The CRC of xedge/drivers/modbus/rtu_codec.py: it fits 16 bits, and every step of it can be undone,
-- so that two texts that differ in one byte never have the same CRC.
use Prim.Native.Nat.{bit_xor}
use xedge.Prelude.{
  ℕ, zero, suc, ◌+◌, ◌*◌, ◌<◌, ◌≡◌, ◌≢◌, refl, ap, ◌∙◌, sym, Bool, true, ltb, ◌==◌, ==_iff, ◌&&◌,
  if◌then◌else◌, List, [], ◌∷◌, All, arith, ◌++◌,
}
use xedge.Prelude.Bits.{passes_below, passes_below-at}
use xedge.Prelude.Xor.{bit_xor_fits, bit_xor_cancel_left, bit_xor_cancel_right}
use xedge.Modbus.Codec.Frames.{IsByte}
use xedge.Modbus.Rtu.{crc_bit, crc_bits, crc_byte, crc_over, compute_crc16, crc_polynomial}

-- What `crc_bit` does, backwards: the top bit tells which branch was taken.
abbrev undo_bit : ℕ → ℕ
undo_bit crc = if ltb crc 32768 then crc * 2 else bit_xor crc crc_polynomial * 2 + 1

abbrev bit_case : ℕ → Bool
bit_case x = undo_bit (crc_bit x) == x && ltb (crc_bit x) 65536

bit_table : passes_below bit_case 65536 ≡ true
unfolding passes_below crc_bit
bit_table = refl

crc_bit_step : (x : ℕ) → x < 65536 → (undo_bit (crc_bit x) ≡ x) × (crc_bit x < 65536)
crc_bit_step x h =
    let t : bit_case x ≡ true = passes_below-at bit_case 65536 x h bit_table in
    ground (arith, ==_iff (undo_bit (crc_bit x)) x)

crc_bits_fits : (n x : ℕ) → x < 65536 → crc_bits n x < 65536
unfolding crc_bits
crc_bits_fits zero x h = h
crc_bits_fits (suc n) x h = crc_bits_fits n (crc_bit x) (crc_bit_step x h).1

crc_bits_cancel : (n x y : ℕ) → x < 65536 → y < 65536 → crc_bits n x ≡ crc_bits n y → x ≡ y
unfolding crc_bits
crc_bits_cancel zero x y h l e = e
crc_bits_cancel (suc n) x y h l e =
    let (ux, fx) = crc_bit_step x h in
    let (uy, fy) = crc_bit_step y l in
    let same : crc_bit x ≡ crc_bit y = crc_bits_cancel n (crc_bit x) (crc_bit y) fx fy e in
    sym ux ∙ ap undo_bit same ∙ uy

pub crc_byte_fits : (crc b : ℕ) → crc < 65536 → b < 256 → crc_byte crc b < 65536
unfolding crc_byte
crc_byte_fits crc b h l = crc_bits_fits 8 (bit_xor crc b) (bit_xor_fits 16 crc b h (omega arith))

crc_byte_cancel_crc :
    (x y b : ℕ) → x < 65536 → y < 65536 → b < 256 → crc_byte x b ≡ crc_byte y b → x ≡ y
unfolding crc_byte
crc_byte_cancel_crc x y b h l k e = bit_xor_cancel_right b x y (
    crc_bits_cancel 8 (bit_xor x b) (bit_xor y b) (bit_xor_fits 16 x b h (omega arith))
      (bit_xor_fits 16 y b l (omega arith)) e)

crc_byte_cancel_byte :
    (crc b c : ℕ) → crc < 65536 → b < 256 → c < 256 → crc_byte crc b ≡ crc_byte crc c → b ≡ c
unfolding crc_byte
crc_byte_cancel_byte crc b c h l k e = bit_xor_cancel_left crc b c (
    crc_bits_cancel 8 (bit_xor crc b) (bit_xor crc c) (bit_xor_fits 16 crc b h (omega arith))
      (bit_xor_fits 16 crc c h (omega arith)) e)

pub crc_over_fits : (crc : ℕ) (d : List ℕ) → crc < 65536 → All IsByte d → crc_over crc d < 65536
unfolding crc_over
crc_over_fits crc [] h b = h
crc_over_fits crc (x ∷ d) h b = crc_over_fits (crc_byte crc x) d (crc_byte_fits crc x h b.0) b.1

crc_over_cancel :
    (x y : ℕ) (d : List ℕ)
    → x < 65536
    → y < 65536
    → All IsByte d
    → crc_over x d ≡ crc_over y d
    → x ≡ y
unfolding crc_over
crc_over_cancel x y [] h l b e = e
crc_over_cancel x y (z ∷ d) h l b e = crc_byte_cancel_crc x y z h l b.0 (
    crc_over_cancel (crc_byte x z) (crc_byte y z) d (crc_byte_fits x z h b.0)
      (crc_byte_fits y z l b.0) b.1 e)

crc_over-append : (crc : ℕ) (d e : List ℕ) → crc_over crc (d ++ e) ≡ crc_over (crc_over crc d) e
unfolding crc_over
crc_over-append crc [] e = refl
crc_over-append crc (x ∷ d) e = crc_over-append (crc_byte crc x) d e

pub compute_crc16_fits : (d : List ℕ) → All IsByte d → compute_crc16 d < 65536
unfolding compute_crc16
compute_crc16_fits d b = crc_over_fits 0xFFFF d (omega arith) b

-- Two texts of bytes that differ in one place only, whatever stands before and behind it, have
-- different CRCs.
pub compute_crc16_detects :
    (before : List ℕ) (x y : ℕ) (after : List ℕ)
    → All IsByte before
    → x < 256
    → y < 256
    → All IsByte after
    → x ≢ y
    → compute_crc16 (before ++ x ∷ after) ≢ compute_crc16 (before ++ y ∷ after)
unfolding compute_crc16 crc_over
compute_crc16_detects before x y after hb hx hy ha d e =
    let c : ℕ = crc_over 0xFFFF before in
    let fits : c < 65536 = crc_over_fits 0xFFFF before (omega arith) hb in
    let left = crc_over-append 0xFFFF before (x ∷ after) in
    let right = crc_over-append 0xFFFF before (y ∷ after) in
    d (
      crc_byte_cancel_byte c x y fits hx hy (
        crc_over_cancel (crc_byte c x) (crc_byte c y) after (crc_byte_fits c x fits hx)
          (crc_byte_fits c y fits hy) ha (sym left ∙ e ∙ right)))

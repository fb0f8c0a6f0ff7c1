-- ===== src/Modbus/Datatypes/Integers.antt =====
-- The integer formats of `struct` as xedge/drivers/modbus/datatypes.py uses them: packing and
-- unpacking undo each other.
use xedge.Prelude.{
  ℕ, zero, suc, ◌+◌, ◌-◌, ◌*◌, ◌/◌, ◌%◌, ◌^◌, ◌<◌, ◌≡◌, refl, sym, ap, ◌∙◌, inl, inr, List, [], ◌∷◌,
  ◌++◌, All, All-append, arith, subst, length, length-append, ltb, true, Bool-cases,
}
use xedge.Prelude.Int.{ℤ, pos, negsuc}
use xedge.Prelude.Results.{ok}
use xedge.Modbus.Codec.Frames.{IsByte}
use xedge.Modbus.Datatypes.{be_bytes, from_be, pack_unsigned, pack_signed, as_signed}

from_be-append :
    (acc : ℕ) (xs : List ℕ) (b : ℕ) → from_be acc (xs ++ b ∷ []) ≡ from_be acc xs * 256 + b
unfolding from_be
from_be-append acc [] b = refl
from_be-append acc (x ∷ xs) b = from_be-append (acc * 256 + x) xs b

pub length-be_bytes : (w n : ℕ) → length (be_bytes w n) ≡ w
unfolding be_bytes
length-be_bytes zero n = refl
length-be_bytes (suc w) n =
    omega
      (arith, length-append (be_bytes w (n / 256)) ((n % 256) ∷ []), length-be_bytes w (n / 256))

pub be_bytes-IsByte : (w n : ℕ) → All IsByte (be_bytes w n)
unfolding be_bytes
be_bytes-IsByte zero n = tt
be_bytes-IsByte (suc w) n =
    All-append IsByte (be_bytes w (n / 256)) ((n % 256) ∷ []) (be_bytes-IsByte w (n / 256))
      (omega arith, tt)

pub from_be-be_bytes : (w n : ℕ) → n < 256 ^ w → from_be 0 (be_bytes w n) ≡ n
unfolding be_bytes from_be
from_be-be_bytes zero n h = omega arith
from_be-be_bytes (suc w) n h = omega (
  arith,
  from_be-append 0 (be_bytes w (n / 256)) (n % 256),
  from_be-be_bytes w (n / 256) (omega arith),
)

snoc_cases : (b : ℕ) (l : List ℕ) → (xs : List ℕ) × (c : ℕ) × (b ∷ l ≡ xs ++ c ∷ [])
snoc_cases b [] = ([], b, refl)
snoc_cases b (c ∷ l) = let (xs, d, e) = snoc_cases c l in (b ∷ xs, d, ap (λ t. b ∷ t) e)

All-snoc : (xs : List ℕ) (c : ℕ) → All IsByte (xs ++ c ∷ []) → All IsByte xs × (c < 256)
All-snoc [] c h = (tt, h.0)
All-snoc (x ∷ xs) c h = let (hx, hc) = All-snoc xs c h.1 in ((h.0, hx), hc)

-- A text of `w` bytes is the number that it stands for, and that number fits.
pub be_bytes-from_be :
    (w : ℕ) (raw : List ℕ)
    → length raw ≡ w
    → All IsByte raw
    → (be_bytes w (from_be 0 raw) ≡ raw) × (from_be 0 raw < 256 ^ w)
unfolding be_bytes from_be
be_bytes-from_be zero [] h b = (refl, omega arith)
be_bytes-from_be zero (x ∷ raw) h b = absurd (omega arith)
be_bytes-from_be (suc w) [] h b = absurd (omega arith)
be_bytes-from_be (suc w) (x ∷ raw) h b =
    let (xs, c, e) = snoc_cases x raw in
    let b' : All IsByte (xs ++ c ∷ []) = subst (λ l. All IsByte l) e b in
    let n : suc (length raw) ≡ length xs + 1 =
      ap (λ (l : List ℕ). length l) e ∙ length-append xs (c ∷ []) in
    let (hx, hc) = All-snoc xs c b' in
    let (same, fits) = be_bytes-from_be w xs (omega (arith, n)) hx in
    let whole : from_be 0 (x ∷ raw) ≡ from_be 0 xs * 256 + c =
      ap (from_be 0) e ∙ from_be-append 0 xs c in
    let high : from_be 0 (x ∷ raw) / 256 ≡ from_be 0 xs = omega (arith, whole) in
    let low : from_be 0 (x ∷ raw) % 256 ≡ c = omega (arith, whole) in
    (rw (high, low, same) (sym e), omega (arith, whole, fits))

unsigned_inv :
    (w : ℕ) (n : ℤ) (raw : List ℕ)
    → pack_unsigned w n ≡ ok raw
    → (m : ℕ) × (n ≡ pos m) × (m < 256 ^ w) × (raw ≡ be_bytes w m)
unfolding pack_unsigned
unsigned_inv w (pos n) raw e = (n, refl, ground arith, ground arith)
unsigned_inv w (negsuc n) raw e = absurd (ground arith)

-- A width of whole bytes: half of the range is negative.
signed_inv :
    (w half : ℕ) (n : ℤ) (raw : List ℕ)
    → 256 ^ w ≡ 2 * half
    → pack_signed w n ≡ ok raw
    → (m : ℕ) × (n ≡ as_signed w m) × (m < 256 ^ w) × (raw ≡ be_bytes w m)
unfolding pack_signed
signed_inv w half (pos n) raw p e = (n, ground arith, ground arith, ground arith)
signed_inv w half (negsuc n) raw p e =
    let fits : n < half = ground arith in
    let back : 256 ^ w - 1 - (256 ^ w - 1 - n) ≡ n = omega arith in
    (256 ^ w - 1 - n, ground (arith, back), ground arith, ground arith)

pub pack_signed-as_signed :
    (w half m : ℕ)
    → 256 ^ w ≡ 2 * half
    → m < 256 ^ w
    → pack_signed w (as_signed w m) ≡ ok (be_bytes w m)
unfolding pack_signed
pack_signed-as_signed w half m p h = elim (Bool-cases (ltb m (256 ^ w / 2))) [
  | inl low ↦ rw low (ground arith)
  | inr high ↦
      let back : 256 ^ w - 1 - (256 ^ w - 1 - m) ≡ m = omega arith in
      let small : ltb (256 ^ w - 1 - m) (256 ^ w / 2) ≡ true = ground arith in
      rw high (rw (small, back) refl)
]

pub pack_unsigned-pos : (w m : ℕ) → m < 256 ^ w → pack_unsigned w (pos m) ≡ ok (be_bytes w m)
unfolding pack_unsigned
pack_unsigned-pos w m h = ground arith

-- What an integer format writes is a text of its width, which stands for the number.
pub pack_unsigned_inv :
    (w : ℕ) (n : ℤ) (raw : List ℕ)
    → pack_unsigned w n ≡ ok raw
    → (pos (from_be 0 raw) ≡ n) × (length raw ≡ w) × All IsByte raw
pack_unsigned_inv w n raw e =
    let (m, is_n, fits, is_raw) = unsigned_inv w n raw e in
    rw (is_n, is_raw) (ap pos (from_be-be_bytes w m fits), length-be_bytes w m, be_bytes-IsByte w m)

pub pack_signed_inv :
    (w half : ℕ) (n : ℤ) (raw : List ℕ)
    → 256 ^ w ≡ 2 * half
    → pack_signed w n ≡ ok raw
    → (as_signed w (from_be 0 raw) ≡ n) × (length raw ≡ w) × All IsByte raw
pack_signed_inv w half n raw p e =
    let (m, is_n, fits, is_raw) = signed_inv w half n raw p e in
    rw (is_n, is_raw)
      (ap (as_signed w) (from_be-be_bytes w m fits), length-be_bytes w m, be_bytes-IsByte w m)

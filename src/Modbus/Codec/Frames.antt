-- ===== src/Modbus/Codec/Frames.antt =====
-- MBAP frames of xedge/drivers/modbus/codec.py: what `encode_mbap` writes, `decode_mbap` reads.
use xedge.Prelude.{
  ℕ, suc, ◌+◌, ◌-◌, ◌*◌, ◌/◌, ◌%◌, ◌<◌, ◌≡◌, refl, ◌∙◌, List, ◌∷◌, arith, length, take,
  if◌then◌else◌, ◌==◌, All, length-take, take-all,
}
use xedge.Prelude.Int.{pos}
use xedge.Prelude.Results.{ok, err}
use xedge.Modbus.Codec.{encode_mbap, decode_mbap, frame_remainder_length, framing_error}

-- The frame that `encode_mbap` returns.
abbrev frame : ℕ → ℕ → List ℕ → List ℕ
frame t u pdu =
    (t / 256) ∷ (t % 256) ∷ 0 ∷ 0 ∷ ((length pdu + 1) / 256) ∷ ((length pdu + 1) % 256) ∷ u ∷ pdu

encode_mbap-frame :
    (t u : ℕ) (pdu : List ℕ)
    → t < 65536
    → u < 256
    → length pdu + 1 < 65536
    → encode_mbap (pos t) (pos u) pdu ≡ ok (frame t u pdu)
unfolding encode_mbap
encode_mbap-frame t u pdu ht hu hl = ground arith

-- What `decode_mbap` does with a header of seven bytes.
decode_header :
    (a b e f g len : ℕ) (rest : List ℕ)
    → e * 256 + f ≡ len
    → decode_mbap (a ∷ b ∷ 0 ∷ 0 ∷ e ∷ f ∷ g ∷ rest) ≡ (
        if length (take (len - 1) rest) + 1 == len
        then ok (a * 256 + b, g, take (len - 1) rest)
        else err framing_error)
unfolding decode_mbap
decode_header a b e f g len rest h =
    let h' : 7 + (e * 256 + f) - 1 - 7 ≡ len - 1 = omega arith in rw (h', h) (ground arith)

decode_mbap-frame :
    (t u : ℕ) (pdu : List ℕ) → length pdu + 1 < 65536 → decode_mbap (frame t u pdu) ≡ ok (t, u, pdu)
decode_mbap-frame t u pdu hl =
    rw
      (decode_header (t / 256) (t % 256) ((length pdu + 1) / 256) ((length pdu + 1) % 256) u
        (length pdu + 1) pdu (omega arith))
      (ground (arith, take-all (length pdu + 1 - 1) pdu))

remainder-frame :
    (t u : ℕ) (pdu : List ℕ)
    → length pdu + 1 < 65536
    → frame_remainder_length (take 7 (frame t u pdu)) ≡ ok (pos (length pdu))
unfolding frame_remainder_length
remainder-frame t u pdu hl =
    let h : (length pdu + 1) / 256 * 256 + (length pdu + 1) % 256 ≡ suc (length pdu) =
      omega arith in
    rw h refl

-- For a transaction id, a unit id and a PDU that fit their fields, `encode_mbap` returns a frame,
-- `decode_mbap` reads the three back from it, and the header alone tells a stream transport how
-- many bytes follow it.
pub decode_mbap-encode_mbap :
    (t u : ℕ) (pdu : List ℕ)
    → t < 65536
    → u < 256
    → length pdu + 1 < 65536
    → (fr : List ℕ) × (encode_mbap (pos t) (pos u) pdu ≡ ok fr)
      × (decode_mbap fr ≡ ok (t, u, pdu))
      × (frame_remainder_length (take 7 fr) ≡ ok (pos (length pdu)))
      × (length fr ≡ 7 + length pdu)
decode_mbap-encode_mbap t u pdu ht hu hl = (
  frame t u pdu,
  encode_mbap-frame t u pdu ht hu hl,
  decode_mbap-frame t u pdu hl,
  remainder-frame t u pdu hl,
  omega arith,
)

decode_mbap-short : (fr : List ℕ) → length fr < 7 → decode_mbap fr ≡ err framing_error
unfolding decode_mbap
decode_mbap-short fr h = ground arith

-- A strict prefix of the payload that the header announces.
decode_mbap-cut :
    (t u n : ℕ) (rest : List ℕ)
    → length rest < n
    → decode_mbap ((t / 256) ∷ (t % 256) ∷ 0 ∷ 0 ∷ ((n + 1) / 256) ∷ ((n + 1) % 256) ∷ u ∷ rest)
      ≡ err framing_error
decode_mbap-cut t u n rest h =
    rw
      (decode_header (t / 256) (t % 256) ((n + 1) / 256) ((n + 1) % 256) u (n + 1) rest
        (omega arith))
      (ground (arith, take-all (n + 1 - 1) rest))

prefix_refused :
    (t u n : ℕ) (pdu : List ℕ)
    → n < 7 + length pdu
    → decode_mbap (take n (frame t u pdu)) ≡ err framing_error
prefix_refused t u (suc (suc (suc (suc (suc (suc (suc n))))))) pdu h =
    decode_mbap-cut t u (length pdu) (take n pdu) (omega (arith, length-take n pdu))
prefix_refused t u n pdu h =
    decode_mbap-short (take n (frame t u pdu)) (omega (arith, length-take n (frame t u pdu)))

encode_mbap_inv :
    (t u : ℕ) (pdu fr : List ℕ)
    → encode_mbap (pos t) (pos u) pdu ≡ ok fr
    → (t < 65536) × (u < 256) × (length pdu + 1 < 65536)
unfolding encode_mbap
encode_mbap_inv t u pdu fr h = ground arith

-- Every strict prefix of a frame that `encode_mbap` returned is refused with a framing error: a
-- truncated frame is never taken for a shorter one.
pub decode_mbap_truncated :
    (t u n : ℕ) (pdu fr : List ℕ)
    → encode_mbap (pos t) (pos u) pdu ≡ ok fr
    → n < length fr
    → decode_mbap (take n fr) ≡ err framing_error
decode_mbap_truncated t u n pdu fr h l =
    let (ht, hu, hl) = encode_mbap_inv t u pdu fr h in
    let same : fr ≡ frame t u pdu = cc (encode_mbap-frame t u pdu ht hu hl) in
    let l' : n < length (frame t u pdu) = rw same at l in
    rw same (prefix_refused t u n pdu (omega arith))

abbrev pub IsByte : ℕ → Type 0
IsByte b = b < 256

accepted_frame :
    (a b c d e f g t u : ℕ) (rest pdu : List ℕ)
    → decode_mbap (a ∷ b ∷ c ∷ d ∷ e ∷ f ∷ g ∷ rest) ≡ ok (t, u, pdu)
    → (c ≡ 0)
      × (d ≡ 0)
      × (t ≡ a * 256 + b)
      × (u ≡ g)
      × (length pdu + 1 ≡ e * 256 + f)
      × (pdu ≡ take (7 + (e * 256 + f) - 1 - 7) rest)
unfolding decode_mbap
accepted_frame a b c d e f g t u rest pdu h = ground arith

byte_pair : (a b : ℕ) → b < 256 → ((a * 256 + b) / 256 ≡ a) × ((a * 256 + b) % 256 ≡ b)
byte_pair a b h = omega arith

-- What `decode_mbap` accepts, on any list of bytes, is what `encode_mbap` writes for the values that
-- it returns, up to bytes behind the announced length.
pub encode_mbap-decode_mbap :
    (fr : List ℕ) (t u : ℕ) (pdu : List ℕ)
    → All IsByte fr
    → decode_mbap fr ≡ ok (t, u, pdu)
    → encode_mbap (pos t) (pos u) pdu ≡ ok (take (7 + length pdu) fr)
encode_mbap-decode_mbap (a ∷ b ∷ c ∷ d ∷ e ∷ f ∷ g ∷ rest) t u pdu i h =
    let acc = accepted_frame a b c d e f g t u rest pdu h in
    let k : 7 + (e * 256 + f) - 1 - 7 ≡ length pdu = omega arith in
    let tail : pdu ≡ take (length pdu) rest = rw k at acc.5 in
    let n : 7 + length pdu ≡ suc (suc (suc (suc (suc (suc (suc (length pdu))))))) = omega arith in
    encode_mbap-frame t u pdu (omega arith) (omega arith) (omega arith)
    ∙ rw n (ground (arith, tail, byte_pair a b, byte_pair e f))
encode_mbap-decode_mbap fr t u pdu i h = cc (decode_mbap-short fr (omega arith))

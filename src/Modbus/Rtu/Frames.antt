-- ===== src/Modbus/Rtu/Frames.antt =====
-- RTU frames of xedge/drivers/modbus/rtu_codec.py: what `encode_rtu_frame` writes, `decode_rtu_frame`
-- reads, and a frame with one wrong byte is refused.
use Prim.Native.Nat.{bit_and, bit_or}
use xedge.Prelude.{
  ℕ, suc, ◌+◌, ◌-◌, ◌*◌, ◌/◌, ◌%◌, ◌≤◌, ◌<◌, ◌≡◌, ◌≢◌, refl, ap, ◌∙◌, sym, ◌⊎◌, inl, inr, true, leb,
  ◌==◌, List, [], ◌∷◌, ◌++◌, All, arith, length, take, drop, set, get_or, if◌then◌else◌,
  length-append, length-drop, subst, take-length_append, drop-length_append, take-append-drop,
}
use xedge.Prelude.Bits.{passes_below, eq_below}
use xedge.Prelude.Writes.{
  set-append_left, set-append_right, get_or-append_left, get_or-append_right, set-split,
  get_or-split, All-take, All-drop, All-get_or,
}
use xedge.Prelude.Int.{pos}
use xedge.Prelude.Results.{ok, err}
use xedge.Modbus.Codec.Frames.{IsByte}
use xedge.Modbus.Rtu.{
  rtu_framing_error, compute_crc16, encode_rtu_frame, decode_rtu_frame, split_body,
}
use xedge.Modbus.Rtu.Crc.{compute_crc16_fits, compute_crc16_detects}

low_table : passes_below (λ x. bit_and x 0xFF == x % 256) 65536 ≡ true
unfolding passes_below
low_table = refl

joined_table : passes_below (λ x. bit_or (x % 256) (x / 256 * 256) == x) 65536 ≡ true
unfolding passes_below
joined_table = refl

low_byte : (x : ℕ) → x < 65536 → bit_and x 0xFF ≡ x % 256
low_byte x h = eq_below (λ x. bit_and x 0xFF) (λ x. x % 256) 65536 low_table x h

joined : (lo hi : ℕ) → lo < 256 → hi < 256 → bit_or lo (hi * 256) ≡ lo + hi * 256
joined lo hi h l =
    let e =
      eq_below (λ x. bit_or (x % 256) (x / 256 * 256)) (λ x. x) 65536 joined_table (lo + hi * 256)
        (omega arith) in
    let e1 : (lo + hi * 256) % 256 ≡ lo = omega arith in
    let e2 : (lo + hi * 256) / 256 ≡ hi = omega arith in rw (e1, e2) at e

-- The frame around a body.
abbrev framed : List ℕ → List ℕ
framed body = body ++ (compute_crc16 body % 256) ∷ (compute_crc16 body / 256) ∷ []

encode_rtu-framed :
    (a : ℕ) (pdu : List ℕ)
    → a < 256
    → All IsByte pdu
    → encode_rtu_frame (pos a) pdu ≡ ok (framed (a ∷ pdu))
unfolding encode_rtu_frame
encode_rtu-framed a pdu h b =
    let c : ℕ = compute_crc16 (a ∷ pdu) in
    let fits : c < 65536 = compute_crc16_fits (a ∷ pdu) (h, b) in
    ground (arith, low_byte c fits, low_byte (c / 256) (omega arith))

-- What `decode_rtu_frame` does with a body and two bytes.
decode_rtu-append :
    (body : List ℕ) (lo hi : ℕ)
    → lo < 256
    → hi < 256
    → decode_rtu_frame (body ++ lo ∷ hi ∷ []) ≡ (
        if leb 2 (length body)
        then (if lo + hi * 256 == compute_crc16 body
            then split_body body
            else err rtu_framing_error)
        else err rtu_framing_error)
unfolding decode_rtu_frame
decode_rtu-append body lo hi h l =
    let n : length (body ++ lo ∷ hi ∷ []) ≡ length body + 2 = length-append body (lo ∷ hi ∷ []) in
    let k : length body + 2 - 2 ≡ length body = omega arith in
    rw
      (
        n,
        k,
        take-length_append body (lo ∷ hi ∷ []) (length body) refl,
        drop-length_append body (lo ∷ hi ∷ []) (length body) refl,
        joined lo hi h l,
      )
      (ground arith)

-- For an address that fits a byte and a PDU of at least one byte, `encode_rtu_frame` returns a frame
-- that is three bytes longer than the PDU, and `decode_rtu_frame` reads the address and the PDU back.
pub decode_rtu-encode_rtu :
    (a : ℕ) (pdu : List ℕ)
    → a < 256
    → All IsByte pdu
    → 1 ≤ length pdu
    → (fr : List ℕ) × (encode_rtu_frame (pos a) pdu ≡ ok fr)
      × (decode_rtu_frame fr ≡ ok (a, pdu))
      × (length fr ≡ length pdu + 3)
decode_rtu-encode_rtu a pdu h b n =
    let c : ℕ = compute_crc16 (a ∷ pdu) in
    let fits : c < 65536 = compute_crc16_fits (a ∷ pdu) (h, b) in
    (
      framed (a ∷ pdu),
      encode_rtu-framed a pdu h b,
      decode_rtu-append (a ∷ pdu) (c % 256) (c / 256) (omega arith) (omega arith) ∙ ground arith,
      omega (arith, length-append pdu ((c % 256) ∷ (c / 256) ∷ [])),
    )

refused :
    (body : List ℕ) (lo hi : ℕ)
    → lo < 256
    → hi < 256
    → lo + hi * 256 ≢ compute_crc16 body
    → decode_rtu_frame (body ++ lo ∷ hi ∷ []) ≡ err rtu_framing_error
refused body lo hi h l d = decode_rtu-append body lo hi h l ∙ ground arith

-- A wrong byte in the body changes the CRC.
crc-set :
    (body : List ℕ) (i y : ℕ)
    → All IsByte body
    → i < length body
    → y < 256
    → y ≢ get_or body i 0
    → compute_crc16 body ≢ compute_crc16 (set body i y)
crc-set body i y b h l d e =
    let before : List ℕ = take i body in
    let after : List ℕ = drop (suc i) body in
    compute_crc16_detects before (get_or body i 0) y after (All-take IsByte i body b)
      (All-get_or IsByte body i 0 (omega arith) b) l (All-drop IsByte (suc i) body b)
      (λ same. d (sym same))
      (ap compute_crc16 (sym (get_or-split body i 0 h))
        ∙ e
        ∙ ap compute_crc16 (set-split body i y h))

-- The same for a whole frame: the wrong byte is in the body, or is one of the two of the CRC.
corrupted :
    (body : List ℕ) (i y : ℕ)
    → All IsByte body
    → i < length (framed body)
    → y < 256
    → y ≢ get_or (framed body) i 0
    → decode_rtu_frame (set (framed body) i y) ≡ err rtu_framing_error
corrupted body i y b h l d =
    let c : ℕ = compute_crc16 body in
    let fits : c < 65536 = compute_crc16_fits body b in
    let tail : List ℕ = (c % 256) ∷ (c / 256) ∷ [] in
    let n : length (framed body) ≡ length body + 2 = length-append body tail in
    elim (place i (length body) (omega (arith, h, n))) [
      | inl inside ↦ rw (set-append_left body tail i y inside) (
          refused (set body i y) (c % 256) (c / 256) (omega arith) (omega arith) (λ e.
            crc-set body i y b inside l (λ s. d (s ∙ sym (get_or-append_left body tail i 0 inside)))
              (omega (arith, e))))
      | inr (inl low) ↦ rw (set-append_right body tail i 0 y low) (
          refused body y (c / 256) l (omega arith)
            (λ e. d (omega (arith, e) ∙ sym (get_or-append_right body tail i 0 0 low))))
      | inr (inr high) ↦ rw (set-append_right body tail i 1 y high) (
          refused body (c % 256) y (omega arith) l
            (λ e. d (omega (arith, e) ∙ sym (get_or-append_right body tail i 1 0 high))))
    ]
  where
    place : (i n : ℕ) → i < n + 2 → (i < n) ⊎ ((i ≡ n + 0) ⊎ (i ≡ n + 1))
    place i n h = ground arith

encode_rtu_inv : (a : ℕ) (pdu fr : List ℕ) → encode_rtu_frame (pos a) pdu ≡ ok fr → a < 256
unfolding encode_rtu_frame
encode_rtu_inv a pdu fr e = ground arith

-- A frame that `encode_rtu_frame` returned and in which any one byte was replaced by another is
-- refused with a framing error: no corruption of a single byte, in the address, the PDU or the CRC
-- itself, is ever taken for a valid frame.
pub corruption_detected :
    (a i y : ℕ) (pdu fr : List ℕ)
    → encode_rtu_frame (pos a) pdu ≡ ok fr
    → All IsByte pdu
    → i < length fr
    → y < 256
    → y ≢ get_or fr i 0
    → decode_rtu_frame (set fr i y) ≡ err rtu_framing_error
corruption_detected a i y pdu fr e b h l d =
    let byte = encode_rtu_inv a pdu fr e in
    let same : fr ≡ framed (a ∷ pdu) = cc (encode_rtu-framed a pdu byte b) in
    let h' : i < length (framed (a ∷ pdu)) = rw same at h in
    let d' : y ≢ get_or (framed (a ∷ pdu)) i 0 = rw same at d in
    rw same (corrupted (a ∷ pdu) i y (byte, b) h' l d')

two_left : (l : List ℕ) → length l ≡ 2 → (lo : ℕ) × (hi : ℕ) × (l ≡ lo ∷ hi ∷ [])
two_left (lo ∷ hi ∷ []) h = (lo, hi, refl)
two_left [] h = absurd (omega arith)
two_left (x ∷ []) h = absurd (omega arith)
two_left (x ∷ y ∷ z ∷ l) h = absurd (omega arith)

accepted_body :
    (body pdu : List ℕ) (lo hi a : ℕ)
    → All IsByte body
    → lo < 256
    → hi < 256
    → decode_rtu_frame (body ++ lo ∷ hi ∷ []) ≡ ok (a, pdu)
    → (body ≡ a ∷ pdu) × (lo + hi * 256 ≡ compute_crc16 body)
accepted_body [] pdu lo hi a b h l e =
    let e' = sym (decode_rtu-append [] lo hi h l) ∙ e in ground arith
accepted_body (x ∷ body) pdu lo hi a b h l e =
    let e' = sym (decode_rtu-append (x ∷ body) lo hi h l) ∙ e in ground arith

decode_rtu-long : (fr pdu : List ℕ) (a : ℕ) → decode_rtu_frame fr ≡ ok (a, pdu) → 4 ≤ length fr
unfolding decode_rtu_frame
decode_rtu-long fr pdu a e = ground arith

-- Of the texts of bytes, `decode_rtu_frame` accepts those only that `encode_rtu_frame` returns: a
-- frame that gives an address and a PDU is the frame of that address and that PDU.
pub encode_rtu-decode_rtu :
    (a : ℕ) (pdu fr : List ℕ)
    → All IsByte fr
    → decode_rtu_frame fr ≡ ok (a, pdu)
    → encode_rtu_frame (pos a) pdu ≡ ok fr
encode_rtu-decode_rtu a pdu fr b e =
    let long = decode_rtu-long fr pdu a e in
    let body : List ℕ = take (length fr - 2) fr in
    let (lo, hi, two) =
      two_left (drop (length fr - 2) fr) (omega (arith, length-drop (length fr - 2) fr)) in
    let whole : body ++ lo ∷ hi ∷ [] ≡ fr =
      ap (λ l. body ++ l) (sym two) ∙ take-append-drop (length fr - 2) fr in
    let bytes : All IsByte (lo ∷ hi ∷ []) =
      subst (λ l. All IsByte l) two (All-drop IsByte (length fr - 2) fr b) in
    let (is_body, crc) =
      accepted_body body pdu lo hi a (All-take IsByte (length fr - 2) fr b) bytes.0 bytes.1.0
        (ap decode_rtu_frame whole ∙ e) in
    let good : All IsByte (a ∷ pdu) =
      subst (λ l. All IsByte l) is_body (All-take IsByte (length fr - 2) fr b) in
    let same : compute_crc16 (a ∷ pdu) ≡ lo + hi * 256 = ap compute_crc16 (sym is_body) ∙ sym crc in
    encode_rtu-framed a pdu good.0 good.1
    ∙ ap ok (
        ap (λ l. l ++ (compute_crc16 (a ∷ pdu) % 256) ∷ (compute_crc16 (a ∷ pdu) / 256) ∷ [])
          (sym is_body)
        ∙ ap (λ l. body ++ l) (bytes_of (compute_crc16 (a ∷ pdu)) lo hi same bytes.0 bytes.1.0)
        ∙ whole)
  where
    bytes_of :
        (c lo hi : ℕ)
        → c ≡ lo + hi * 256
        → lo < 256
        → hi < 256
        → (c % 256) ∷ (c / 256) ∷ [] ≡ lo ∷ hi ∷ []
    bytes_of c lo hi e h l =
        let e1 : c % 256 ≡ lo = omega arith in
        let e2 : c / 256 ≡ hi = omega arith in rw (e1, e2) refl

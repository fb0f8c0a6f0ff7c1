-- ===== src/Sparkplug/Wire/Fuel.antt =====
-- The loops of xedge/northbound/sparkplug/wire.py end before the fuel of the model does, on any data.
use Prim.Native.Nat.{bit_and, bit_or}
use xedge.Prelude.{
  ℕ, zero, suc, ◌+◌, ◌*◌, ◌^◌, ◌≤◌, ◌<◌, ◌≡◌, refl, ◌⊎◌, inl, inr, Bool-cases, List, [], ◌∷◌, arith,
  length, drop, ◌==◌,
}
use xedge.Prelude.Results.{Result, ok, err, ok_of_bind}
use xedge.Sparkplug.Wire.{
  WireError, Field, FieldValue, varint_from, decode_varint, payload, field_value, next_field,
  fields_from, iter_fields,
}

varint_from-progress :
    (l : List ℕ) (at' r s v end : ℕ) → varint_from l at' r s ≡ ok (v, end) → at' < end
unfolding varint_from
varint_from-progress [] at' r s v end e = absurd (cc)
varint_from-progress (b ∷ l) at' r s v end e = elim (Bool-cases (bit_and b 0x80 == 0)) [
  | inl last ↦ ground arith
  | inr more ↦
      let further =
        varint_from-progress l (at' + 1) (bit_or r (bit_and b 0x7F * 2 ^ s)) (s + 7) v end
          (rw more at e) in
      omega (arith, further)
]

decode_varint-progress :
    (d : List ℕ) (at' v end : ℕ) → decode_varint d at' ≡ ok (v, end) → at' < end
unfolding decode_varint
decode_varint-progress d at' v end e = varint_from-progress (drop at' d) at' 0 0 v end e

payload-progress :
    (t : WireError) (d : List ℕ) (at' size end : ℕ) (v : FieldValue)
    → payload t d at' size ≡ ok (v, end)
    → at' ≤ end
payload-progress t d at' size end v e = ground arith

field_value-progress :
    (d : List ℕ) (w at' end : ℕ) (v : FieldValue) → field_value d w at' ≡ ok (v, end) → at' ≤ end
unfolding field_value
field_value-progress d w at' end v e = elim (Bool-cases (w == 0)) [
  | inl varint ↦
      let ((n, after), read, same) = ok_of_bind (decode_varint d at') _ (rw varint at e) in
      let p = decode_varint-progress d at' n after read in ground arith
  | inr w0 ↦ elim (Bool-cases (w == 1)) [
    | inl fixed64 ↦ payload-progress _ d at' 8 end v (rw (w0, fixed64) at e)
    | inr w1 ↦ elim (Bool-cases (w == 2)) [
      | inl delimited ↦
          let ((n, after), read, same) =
            ok_of_bind (decode_varint d at') _ (rw (w0, w1, delimited) at e) in
          let p = decode_varint-progress d at' n after read in
          omega (arith, p, payload-progress _ d after n end v same)
      | inr w2 ↦ elim (Bool-cases (w == 5)) [
        | inl fixed32 ↦ payload-progress _ d at' 4 end v (rw (w0, w1, w2, fixed32) at e)
        | inr w5 ↦ absurd (ground arith)
      ]
    ]
  ]
]

next_field-progress :
    (d : List ℕ) (at' end : ℕ) (f : Field) → next_field d at' ≡ ok (f, end) → at' < end
unfolding next_field
next_field-progress d at' end f e =
    let ((tag, after), read, rest) = ok_of_bind (decode_varint d at') _ e in
    let ((v, end'), value, same) = ok_of_bind (field_value d (bit_and tag 7) after) _ rest in
    let p = decode_varint-progress d at' tag after read in
    let q = field_value-progress d (bit_and tag 7) after end' v value in
    let e' : end' ≡ end = ground arith in omega (arith, p, q, e')

next_field-cases :
    (r : Result WireError (Field × ℕ))
    → ((e : WireError) × (r ≡ err e)) ⊎ ((f : Field) × (end : ℕ) × (r ≡ ok (f, end)))
next_field-cases (err e) = inl (e, refl)
next_field-cases (ok (f, end)) = inr (f, end, refl)

enough_below :
    (n m : ℕ) (d : List ℕ) (at' : ℕ)
    → length d < at' + n
    → length d < at' + m
    → fields_from n d at' ≡ fields_from m d at'
unfolding fields_from
enough_below zero zero d at' h l = refl
enough_below zero (suc m) d at' h l = ground arith
enough_below (suc n) zero d at' h l = ground arith
enough_below (suc n) (suc m) d at' h l = elim (next_field-cases (next_field d at')) [
  | inl (e, failed) ↦ rw failed refl
  | inr (f, end, read) ↦
      let p = next_field-progress d at' end f read in
      let ih = enough_below n m d end (omega (arith, p)) (omega (arith, p)) in rw (read, ih) refl
]

-- On any data, `iter_fields` gives what its loop gives on any larger fuel: the fuel never ends it.
pub iter_fields_enough :
    (d : List ℕ) (fuel : ℕ) → length d < fuel → fields_from fuel d 0 ≡ iter_fields d
unfolding iter_fields
iter_fields_enough d fuel h = enough_below fuel (suc (length d)) d 0 (omega arith) (omega arith)

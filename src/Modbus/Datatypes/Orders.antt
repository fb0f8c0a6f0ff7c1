-- ===== src/Modbus/Datatypes/Orders.antt =====
-- Word order and byte order of xedge/drivers/modbus/datatypes.py: both can be undone.
use xedge.Prelude.{ℕ, zero, suc, ◌*◌, ◌≡◌, refl, List, [], ◌∷◌, All, arith, length}
use xedge.Modbus.Codec.Frames.{IsByte}
use xedge.Modbus.Codec.Registers.{IsRegister}
use xedge.Modbus.Datatypes.{Order, big, little, join_words, split_words}

pub split-join :
    (o : Order) (ws : List ℕ) → All IsRegister ws → split_words o (join_words o ws) ≡ ws
unfolding split_words join_words
split-join o [] h = refl
split-join big (w ∷ ws) h = ground (arith, split-join big ws h.1)
split-join little (w ∷ ws) h = ground (arith, split-join little ws h.1)

pub join-split :
    (o : Order) (n : ℕ) (raw : List ℕ)
    → length raw ≡ 2 * n
    → All IsByte raw
    → (join_words o (split_words o raw) ≡ raw)
      × (length (split_words o raw) ≡ n)
      × All IsRegister (split_words o raw)
unfolding split_words join_words
join-split o zero [] h b = (refl, refl, tt)
join-split o (suc n) [] h b = absurd (omega arith)
join-split o n (x ∷ []) h b = absurd (omega arith)
join-split o zero (x ∷ y ∷ raw) h b = absurd (omega arith)
join-split big (suc n) (x ∷ y ∷ raw) h b =
    let (same, len, fits) = join-split big n raw (omega arith) b.1.1 in
    (ground (arith, same), omega (arith, len), (omega (arith, b.0, b.1.0), fits))
join-split little (suc n) (x ∷ y ∷ raw) h b =
    let (same, len, fits) = join-split little n raw (omega arith) b.1.1 in
    (ground (arith, same), omega (arith, len), (omega (arith, b.0, b.1.0), fits))

pub length-join : (o : Order) (ws : List ℕ) → length (join_words o ws) ≡ 2 * length ws
unfolding join_words
length-join o [] = omega arith
length-join big (w ∷ ws) = omega (arith, length-join big ws)
length-join little (w ∷ ws) = omega (arith, length-join little ws)

pub join-IsByte : (o : Order) (ws : List ℕ) → All IsByte (join_words o ws)
unfolding join_words
join-IsByte o [] = tt
join-IsByte big (w ∷ ws) = (omega arith, (omega arith, join-IsByte big ws))
join-IsByte little (w ∷ ws) = (omega arith, (omega arith, join-IsByte little ws))

-- ===== src/Sparkplug/Session.antt =====
-- xedge/northbound/sparkplug/session.py: the sequence numbers of a Sparkplug session.
use xedge.Prelude.{
  ℕ, zero, suc, ◌+◌, ◌%◌, ◌≡◌, ◌≢◌, ◌<◌, ◌≤◌, ◌∙◌, refl, sym, ap, List, [], ◌∷◌, arith,
}
mod Examples

abbrev pub seq_modulus : ℕ
seq_modulus = 256

pub record SparkplugSession : Type 0 where
  pub bd_seq : ℕ
  pub seq : ℕ

unfoldable pub new_session : SparkplugSession
new_session = record { bd_seq = 0; seq = 0 }

unfoldable pub death_payload_bd_seq : SparkplugSession → ℕ
death_payload_bd_seq s = s.bd_seq

unfoldable pub start_birth : SparkplugSession → ℕ × SparkplugSession
start_birth s = (s.bd_seq, record s { seq = 0 })

unfoldable pub next_seq : SparkplugSession → ℕ × SparkplugSession
next_seq s = (s.seq, record s { seq = (s.seq + 1) % seq_modulus })

unfoldable pub advance_bd_seq : SparkplugSession → SparkplugSession
advance_bd_seq s = record s { bd_seq = (s.bd_seq + 1) % seq_modulus }

-- The numbers of `n` messages, one after the other, and the session behind them.
unfoldable pub sequence : ℕ → SparkplugSession → List ℕ × SparkplugSession
unfolding next_seq
sequence zero s = ([], s)
sequence (suc n) s =
    let (value, s') = next_seq s in let (rest, end) = sequence n s' in (value ∷ rest, end)

-- `n` numbers from `start` on, modulo 256.
abbrev pub counted : ℕ → ℕ → List ℕ
counted zero start = []
counted (suc n) start = start % 256 ∷ counted n (start + 1)

counted-mod : (n start : ℕ) → counted n (start % 256) ≡ counted n start
counted-mod zero start = refl
counted-mod (suc n) start =
    let again : start % 256 % 256 ≡ start % 256 = omega arith in
    let next : (start % 256 + 1) % 256 ≡ (start + 1) % 256 = omega arith in
    let tail : counted n (start % 256 + 1) ≡ counted n (start + 1) =
      sym (counted-mod n (start % 256 + 1)) ∙ ap (counted n) next ∙ counted-mod n (start + 1) in
    rw (again, tail) refl

sequence-counted :
    (n : ℕ) (s : SparkplugSession)
    → s.seq < 256
    → ((sequence n s).0 ≡ counted n s.seq) × ((sequence n s).1.bd_seq ≡ s.bd_seq)
unfolding sequence next_seq
sequence-counted zero s h = (refl, refl)
sequence-counted (suc n) s h =
    let (values, kept) = sequence-counted n (next_seq s).1 (omega arith) in
    let first : s.seq % 256 ≡ s.seq = omega arith in
    (rw (values, counted-mod n (s.seq + 1), first) refl, kept)

-- The messages that follow a birth are numbered 0, 1, 2 and so on, modulo 256, whatever the session
-- did before; and the session still has the bdSeq that the birth returned, the one of the death
-- payload registered before it.
pub birth-sequence :
    (n : ℕ) (s : SparkplugSession)
    → let (bd_seq, s') = start_birth s in
      ((sequence n s').0 ≡ counted n 0)
      × ((sequence n s').1.bd_seq ≡ bd_seq)
      × (bd_seq ≡ death_payload_bd_seq s)
unfolding start_birth death_payload_bd_seq
birth-sequence n s =
    let (values, kept) = sequence-counted n (record s { seq = 0 }) (omega arith) in
    (values, kept, refl)

-- `n` disconnections.
abbrev pub advanced : ℕ → SparkplugSession → SparkplugSession
advanced zero s = s
advanced (suc n) s = advanced n (advance_bd_seq s)

advanced-bd_seq :
    (n : ℕ) (s : SparkplugSession) → s.bd_seq < 256 → (advanced n s).bd_seq ≡ (s.bd_seq + n) % 256
unfolding advance_bd_seq
advanced-bd_seq zero s h = omega arith
advanced-bd_seq (suc n) s h = advanced-bd_seq n (advance_bd_seq s) (omega arith) ∙ omega arith

-- The bdSeq of a session stays below 256, and the death payloads of two connections that lie fewer
-- than 256 disconnections apart carry different bdSeq values.
pub bd_seq_differs :
    (n : ℕ) (s : SparkplugSession)
    → s.bd_seq < 256
    → 1 ≤ n
    → n < 256
    → ((advanced n s).bd_seq < 256) × (death_payload_bd_seq (advanced n s) ≢ death_payload_bd_seq s)
unfolding death_payload_bd_seq
bd_seq_differs n s h l k =
    let e = advanced-bd_seq n s h in (omega (arith, e), λ same. absurd (omega (arith, e, same)))

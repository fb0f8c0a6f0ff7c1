-- ===== src/Sparkplug/Session/Examples.antt =====
-- A Sparkplug session at concrete inputs.
use xedge.Prelude.{◌≡◌, refl, [], ◌∷◌}
use xedge.Sparkplug.Session.{
  SparkplugSession, start_birth, next_seq, sequence, counted, death_payload_bd_seq, birth-sequence,
}

abbrev late : SparkplugSession
late = record { bd_seq = 255; seq = 254 }

wraps : (sequence 3 late).0 ≡ 254 ∷ 255 ∷ 0 ∷ []
unfolding sequence next_seq
wraps = refl

birth-sequence_example :
    let (bd_seq, s') = start_birth late in
    ((sequence 3 s').0 ≡ counted 3 0)
    × ((sequence 3 s').1.bd_seq ≡ bd_seq)
    × (bd_seq ≡ death_payload_bd_seq late)
birth-sequence_example = birth-sequence 3 late

-- ===== src/Defines/Types.antt =====
-- defines.Types: the message types.
use bubot_co_ap.Prelude.{ℕ}

abbrev pub con : ℕ
con = 0

abbrev pub non : ℕ
non = 1

abbrev pub ack : ℕ
ack = 2

abbrev pub rst : ℕ
rst = 3

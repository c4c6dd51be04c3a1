-- ===== src/Serializer/Pack.antt =====
-- struct.pack_into as the serializers use it: one field after the other into a buffer of zeros.
use bubot_co_ap.Prelude.{
  ℕ, ◌+◌, ◌/◌, ◌%◌, List, [], ◌∷◌, ◌++◌, length, replicate, ltb, ◌==◌, if◌then◌else◌,
}
use bubot_co_ap.Defines.{ByteOrder, little, big}

-- "B", "H", "ns" and what "B" refuses because it is no int.
pub data Field : Type 0 where
  byte : ℕ → Field
  short : ℕ → Field
  raw : List ℕ → Field
  no_int : Field

-- "!" packs without gaps, the high byte first; native mode, which a format without "!" asks for,
-- has the machine's byte order and puts a short at an even offset.
pub data Mode : Type 0 where
  network : Mode
  native : ByteOrder → Mode

-- The bytes of a short in the two orders.
unfoldable pub short_bytes : Mode → ℕ → List ℕ
short_bytes network n = (n / 256) ∷ (n % 256) ∷ []
short_bytes (native big) n = (n / 256) ∷ (n % 256) ∷ []
short_bytes (native little) n = (n % 256) ∷ (n / 256) ∷ []

-- The zero bytes in front of a short at the offset.
unfoldable pub padding : Mode → ℕ → List ℕ
padding network offset = []
padding (native _) offset = if offset % 2 == 0 then [] else 0 ∷ []

-- The bytes that the fields take from the offset on, all zero.
unfoldable pub blank : Mode → ℕ → List Field → List ℕ
unfolding padding
blank mode offset [] = []
blank mode offset (byte n ∷ fs) = 0 ∷ blank mode (offset + 1) fs
blank mode offset (no_int ∷ fs) = 0 ∷ blank mode (offset + 1) fs
blank mode offset (short n ∷ fs) =
    let gap = padding mode offset in gap ++ (0 ∷ 0 ∷ blank mode (offset + length gap + 2) fs)
blank mode offset (raw bs ∷ fs) = replicate (length bs) 0 ++ blank mode (offset + length bs) fs

-- The buffer after pack_into. A field that is refused ends the packing; struct.error is caught and
-- logged, and the buffer is used as it is, zeros from that field on.
unfoldable pub pack : Mode → ℕ → List Field → List ℕ
unfolding blank padding short_bytes
pack mode offset [] = []
pack mode offset (byte n ∷ fs) =
    let rest = pack mode (offset + 1) fs in
    if ltb n 256 then n ∷ rest else blank mode offset (byte n ∷ fs)
pack mode offset (no_int ∷ fs) = blank mode offset (no_int ∷ fs)
pack mode offset (short n ∷ fs) =
    let gap = padding mode offset in
    let rest = pack mode (offset + length gap + 2) fs in
    if ltb n 65536 then gap ++ (short_bytes mode n ++ rest) else blank mode offset (short n ∷ fs)
pack mode offset (raw bs ∷ fs) = bs ++ pack mode (offset + length bs) fs

-- ===== src/Mkfs/Tests.antt =====
-- An image with one small file, and the bitmap of 40 used blocks.
use rain_os.Common.{ℕ, ◌-◌, ◌≤◌, ◌<◌, ◌≡◌, refl, arith, ok, put_int, if◌then◌else◌, ltb}
use rain_os.Bitmap.{Blocks, readsb}
use rain_os.Bitmap.Bits.{usage}
use rain_os.Bitmap.Alloc.{IsLaidOut}
use rain_os.Mkfs.{initial, balloc, size, nlog, wsect}
use rain_os.Mkfs.Usage.{made_super, used-test_bit}

super-initial : readsb (initial).disk ≡ made_super
unfolding readsb initial wsect put_int
super-initial = refl

used-test_bit_example :
    (d' : Blocks) × (balloc 40 (initial).disk ≡ ok d')
    × IsLaidOut d'
    × (readsb d' ≡ made_super)
    × ((c : ℕ) → c < size → usage d' c ≡ (if ltb c 40 then 1 else 0))
    × (40 ≤ size - nlog → (c : ℕ) → size - nlog ≤ c → c < size → usage d' c ≡ 0)
used-test_bit_example = used-test_bit 40 (initial).disk super-initial (omega arith) (omega arith)

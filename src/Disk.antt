-- ===== src/Disk.antt =====
-- What the block layer (bio.c over ide.c) promises to its clients on one device: `bread` returns
-- the cached contents of a sector, or those on the disk, and `bwrite` puts the buffer's contents
-- on the disk and leaves the buffer clean.
-- A machine loses power at some disk write: `power` counts the writes that still reach the disk.
pub mod Writes
use rain_os.Common.{ℕ, ◌-◌, Option, none, some, ◌==◌, if◌then◌else◌, update}

-- The 32-bit words of a 512-byte block.
abbrev pub Block : Type 0
Block = ℕ → ℕ

pub record Store : Type 0 where
  pub disk : ℕ → Block
  -- The buffers that are marked `B_DIRTY`: they differ from the disk.
  pub dirty : ℕ → Option Block
  pub power : ℕ

abbrev pub newest : Option Block → Block → Block
newest none d = d
newest (some b) d = b

unfoldable pub bread : Store → ℕ → Block
bread st s = newest (st.dirty s) (st.disk s)

unfoldable pub bwrite : Store → ℕ → Block → Store
bwrite st s b = record {
  disk = if st.power == 0 then st.disk else update st.disk s b;
  dirty = update st.dirty s none;
  power = st.power - 1;
}

-- The machine after a crash: only the disk is left.
unfoldable pub reboot : Store → ℕ → Store
reboot st p = record { disk = st.disk; dirty = λ s. none; power = p }

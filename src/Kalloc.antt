-- ===== src/Kalloc.antt =====
-- The physical page allocator of kalloc.c, and the exokernel's way to take a chosen page from it.
-- Memory maps the byte address of a word to the word. `kernel_end` is the linker's symbol `end`.
-- The functions run under `kmem.lock`, or before `use_lock` is set.
pub mod Free
pub mod Range
pub mod Frames
mod Tests
use rain_os.Common.{
  ℕ, zero, suc, ◌+◌, ◌-◌, ◌*◌, ◌/◌, ◌%◌, Bool, true, false, not, ◌||◌, ◌&&◌, Option, none, some,
  Outcome, ok, panic, ◌>>=◌, ◌==◌, ltb, leb, if◌then◌else◌, update, word, add_word, sub_word,
}

abbrev pub pgsize : ℕ
pgsize = 4096

abbrev pub kernbase : ℕ
kernbase = 0x8000_0000

abbrev pub phystop : ℕ
phystop = 0xe00_0000

abbrev pub Memory : Type 0
Memory = ℕ → ℕ

-- `kmem`; a page on the free list holds the address of the next one in its first word.
pub record Kmem : Type 0 where
  pub mem : Memory
  pub freelist : ℕ
  pub use_lock : Bool

-- `memset(v, 1, PGSIZE)` at a page's address.
pub fill_page : Memory → ℕ → Memory
fill_page m v a = if leb v a && ltb a (v + pgsize) then 0x0101_0101 else m a

unfoldable pub kfree : ℕ → Kmem → ℕ → Outcome Kmem
kfree kernel_end k v =
    if not (v % pgsize == 0) || (ltb v kernel_end || leb phystop (sub_word v kernbase))
    then panic
    else ok (record k { mem = update (fill_page k.mem v) v k.freelist; freelist = v })

unfoldable pub kalloc : Kmem → ℕ × Kmem
kalloc k =
    if k.freelist == 0
    then (k.freelist, k)
    else (k.freelist, record k { freelist = k.mem k.freelist })

-- `PGROUNDUP`.
unfoldable pub page_round_up : ℕ → ℕ
page_round_up a = add_word a 4095 / pgsize * pgsize

-- The loop of `freerange`; `none` means that the fuel ran out.
pub free_from : ℕ → ℕ → ℕ → ℕ → Kmem → Option (Outcome Kmem)
free_from kernel_end zero p vend k = none
free_from kernel_end (suc fuel) p vend k =
    if leb (add_word p pgsize) vend
    then elim (kfree kernel_end k p) [
      | ok k' ↦ free_from kernel_end fuel (add_word p pgsize) vend k'
      | panic ↦ some panic
    ]
    else some (ok k)

pub freerange : ℕ → ℕ → Kmem → ℕ → ℕ → Option (Outcome Kmem)
unfolding free_from
freerange kernel_end fuel k vstart vend = free_from kernel_end fuel (page_round_up vstart) vend k

abbrev pub with_lock : Bool → Option (Outcome Kmem) → Option (Outcome Kmem)
with_lock b none = none
with_lock b (some panic) = some panic
with_lock b (some (ok k)) = some (ok (record k { use_lock = b }))

-- The two phases of the initialisation.
pub kinit1 : ℕ → ℕ → Kmem → ℕ → ℕ → Option (Outcome Kmem)
kinit1 kernel_end fuel k vstart vend =
    freerange kernel_end fuel (record k { use_lock = false }) vstart vend

pub kinit2 : ℕ → ℕ → Kmem → ℕ → ℕ → Option (Outcome Kmem)
kinit2 kernel_end fuel k vstart vend = with_lock true (freerange kernel_end fuel k vstart vend)

abbrev pub getfreelist : Kmem → ℕ
getfreelist k = k.freelist

-- `initframes`: `start` is the address of the variable of that name, a `struct framelist` of the
-- words pid, frame, next and padding.
pub initframes : ℕ → Memory → Memory
initframes start m =
    let first = kernbase + phystop in
    let m1 = update m (start + 8) first in
    let m2 = update m1 (first + 8) 0 in
    let m3 = update m2 (start + 4) 0 in update m3 start (word - 1)

-- The search of `allocadd` along the free list; `none` means that the fuel ran out.
pub find_frame : ℕ → Memory → ℕ → ℕ → Option Bool
find_frame zero m p frame = none
find_frame (suc fuel) m p frame =
    let rest = find_frame fuel m (m p) frame in
    if p == 0 then some false else if p == frame then some true else rest

-- Its walk to the last slot of the list of allocated frames.
pub last_slot : ℕ → Memory → ℕ → Option ℕ
last_slot zero m f = none
last_slot (suc fuel) m f =
    let rest = last_slot fuel m (m (f + 8)) in if m (f + 8) == 0 then some f else rest

-- `added` returns 1, `refused` returns 0; `spinning` means that the fuel ran out.
pub data Add : Type 0 where
  added : Kmem → Add
  refused spinning : Add

-- The slot `f` takes the frame, and the slot behind it becomes the last one.
pub fill_slot : Memory → ℕ → ℕ → ℕ → Memory
fill_slot m f pid frame =
    update (update (update (update m f pid) (f + 4) frame) (f + 16 + 8) 0) (f + 8) (f + 16)

-- `*freelist = *freelist->next` copies the next page's link over the link of the page found.
pub allocadd : ℕ → ℕ → Kmem → ℕ → ℕ → Add
unfolding find_frame last_slot fill_slot
allocadd fuel start k pid frame =
    if frame == 0 || k.freelist == 0
    then refused
    else elim (find_frame fuel k.mem k.freelist frame) [
      | none ↦ spinning
      | some false ↦ refused
      | some true ↦
          let m = update k.mem frame (k.mem (k.mem frame)) in
          elim (last_slot fuel m start) [
            | none ↦ spinning
            | some f ↦ added (record k { mem = fill_slot m f pid frame })
          ]
    ]

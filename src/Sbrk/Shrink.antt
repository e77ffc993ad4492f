-- ===== src/Sbrk/Shrink.antt =====
-- `sys_sbrk` with a negative argument.
use rain_os.Common.{
  ℕ, ◌+◌, ◌%◌, ◌^◌, ◌≤◌, ◌<◌, ◌≡◌, refl, true, false, none, some, arith, ok, ◌==◌, lt_int,
  is_negative, word,
}
use rain_os.Kalloc.{Kmem}
use rain_os.Vm.Resize.{deallocuvm}
use rain_os.Syscall.{argint}
use rain_os.Sbrk.{Memory, resized, growproc, sys_sbrk}

module _ (kernel_end fuel n : ℕ) (s : Memory) (arg : argint s.user 0 ≡ some n)
    (negative : 2 ^ 31 ≤ n) (small : n < word) where
  -- Giving back the whole of the memory frees it, and then returns -1 with the old size: the size 0
  -- is taken for the error of `deallocuvm`.
  sbrk_all :
      (k : Kmem)
      → (s.user).sz + n ≡ word
      → deallocuvm kernel_end fuel s.pgdir (s.user).sz 0 s.kmem ≡ some (ok (0, k))
      → sys_sbrk kernel_end fuel s ≡ some (ok (none, record s { kmem = k }))
  unfolding sys_sbrk growproc resized
  sbrk_all k e d =
      let a : lt_int 0 n ≡ false = ground arith in
      let b : is_negative n ≡ true = ground arith in
      let z : ((s.user).sz + n) % word ≡ 0 = omega arith in
      rw (arg, sys_sbrk, growproc, a, b, z, d, resized) refl

  -- A sum above 0 wraps to less than the size, and what `deallocuvm` leaves is the process's.
  sbrk_less :
      (sz : ℕ) (k : Kmem)
      → (s.user).sz + n ≡ word + sz
      → 0 < sz
      → sz < word
      → deallocuvm kernel_end fuel s.pgdir (s.user).sz sz s.kmem ≡ some (ok (sz, k))
      → sys_sbrk kernel_end fuel s
        ≡ some (ok (some (s.user).sz, record s { user = record (s.user) { sz = sz }; kmem = k }))
  unfolding sys_sbrk growproc resized
  sbrk_less sz k e pos lt d =
      let a : lt_int 0 n ≡ false = ground arith in
      let b : is_negative n ≡ true = ground arith in
      let z : ((s.user).sz + n) % word ≡ sz = omega arith in
      let nz : (sz == 0) ≡ false = ground arith in
      rw (arg, sys_sbrk, growproc, a, b, z, d, resized, nz) refl

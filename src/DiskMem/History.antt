-- ===== src/DiskMem/History.antt =====
-- Histories of calls, from the constructor on.
use neshare.Base.{ℕ, ◌<◌, ◌≡◌, sym, some, some-inj, arith, Bytes}
use neshare.DiskMem.Laws.{alloc-Allocs, free_lem, obj_byte_size-free}
use neshare.DiskMem.Stores.{
  held, Fresh, Sound, create_disk_mem_file_lem, create_disk_mem_file-Sound,
}
use neshare.DiskMem.{
  create_disk_mem_file, Allocator, Answer, new, initialize, alloc, free, shutdown,
}

-- The allocators that calls reach, each mapping made at a fresh region. Chunks may be freed twice,
-- and pointers that the allocator never gave may be freed too.
pub data Reach : Allocator → Type 0 where
  initializes :
      (file : Bytes) (size initial : ℕ) (os : Answer)
      → 0 < size
      → Fresh (record new { obj_byte_size = size; count = initial }) os
      → (r : ℕ × Allocator) → initialize new file size initial os ≡ some r
      → Reach r.1
  allocs : {a : Allocator} (os : Answer) → Fresh a os → Reach a → Reach (alloc a os).1
  frees : {a : Allocator} (p : ℕ) → Reach a → Reach (free a p)
  shuts_down : {a : Allocator} → Reach a → Reach (shutdown a)

nothing-Sound : (a : Allocator) → ((p : ℕ) → held a p ≡ 0) → Sound a
nothing-Sound a h = record {
  once = λ p. omega (arith, h p);
  nonnull = h 0;
  apart = λ p q k l lt. absurd (omega (arith, h p));
}

initialize-Sound :
    (file : Bytes) (size initial : ℕ) (os : Answer)
    → 0 < size
    → Fresh (record new { obj_byte_size = size; count = initial }) os
    → (r : ℕ × Allocator) → initialize new file size initial os ≡ some r
    → (0 < r.1.obj_byte_size) × Sound r.1
unfolding initialize new
initialize-Sound file size initial os pos fresh r run =
    let a = record new {
      obj_byte_size = size;
      count = initial;
      grow_factor = 2;
      input_file_base = file;
    } in
    let (_, _, same, _) = create_disk_mem_file_lem a os pos in
    let ran : create_disk_mem_file a os ≡ r = some-inj run in
    rw (sym ran)
      (omega arith, create_disk_mem_file-Sound a os pos fresh (nothing-Sound a (λ p. omega arith)))

shutdown-Sound :
    (a : Allocator) → 0 < a.obj_byte_size → (0 < (shutdown a).obj_byte_size) × Sound (shutdown a)
unfolding shutdown
shutdown-Sound a pos = (pos, nothing-Sound (shutdown a) (λ p. omega arith))

-- After any history no chunk is held twice, none is null, and no two chunks overlap.
pub Reach-Sound : {a : Allocator} → Reach a → (0 < a.obj_byte_size) × Sound a
Reach-Sound (initializes file size initial os pos fresh r run) =
    initialize-Sound file size initial os pos fresh r run
Reach-Sound (allocs {a = a} os fresh r) =
    let (pos, v) = Reach-Sound r in
    let ((size, _, _), _, w) = alloc-Allocs a os pos fresh v in (omega arith, w)
Reach-Sound (frees {a = a} p r) =
    let (pos, v) = Reach-Sound r in (rw obj_byte_size-free pos, (free_lem a p v).0)
Reach-Sound (shuts_down {a = a} r) = shutdown-Sound a (Reach-Sound r).0

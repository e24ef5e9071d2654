-- ===== src/DiskMem/Tests.antt =====
-- The allocator at concrete stores: three chunks of eight bytes at address 100.
use neshare.Base.{
  is_empty, Option, ℕ, ◌+◌, ◌*◌, ◌<◌, ◌≡◌, refl, true, false, [], ◌∷◌, none, some, arith, count,
  contains, nat_key, Bytes,
}
use neshare.DiskMem.Chunks.{chunk_loop-chunks}
use neshare.DiskMem.Laws.{Books, Allocs, alloc-Allocs, grown, free_lem, free-alloc}
use neshare.DiskMem.Stores.{held, Fresh, Sound}
use neshare.DiskMem.History.{Reach, Reach-Sound}
use neshare.DiskMem.{
  Allocator, Answer, chunk_loop, decimal, new, initialize, alloc, free, create_disk_mem_file,
  add_store, store_name,
}

abbrev at_100 : Answer
at_100 = record { opened = some 3; mapped = some 100 }

abbrev no_file : Answer
no_file = record { opened = none; mapped = none }

abbrev file : Bytes
file = b'm' ∷ []

abbrev or_new : Option (ℕ × Allocator) → Allocator
unfolding new
or_new none = new
or_new (some r) = r.1

abbrev start : Allocator
unfolding new initialize create_disk_mem_file add_store store_name decimal chunk_loop
start = or_new (initialize new file 8 3 at_100)

start_stack : start.free_stack ≡ 116 ∷ 108 ∷ 100 ∷ []
unfolding start
start_stack = refl

store_name_12 : store_name file 12 ≡ b'm' ∷ b'1' ∷ b'2' ∷ []
unfolding store_name
store_name_12 = refl

-- The region at 100 is fresh for an allocator that holds nothing.
start-Reach : Reach start
unfolding start
start-Reach =
    Reach.initializes file 8 3 at_100 (omega arith)
      (λ s e. (ground arith, λ p h. absurd (omega arith))) (0, start) refl

start-Sound : Sound start
unfolding start
start-Sound = (Reach-Sound start-Reach).1

abbrev at_200 : Answer
at_200 = record { opened = some 4; mapped = some 200 }

start-Fresh : Fresh start at_200
unfolding start
start-Fresh = λ s e. (ground arith, λ p h. ground arith)

chunk_loop-chunks_example : chunk_loop 4 100 (100 + 3 * 8) 8 [] ≡ (124, 116 ∷ 108 ∷ 100 ∷ [])
chunk_loop-chunks_example = chunk_loop-chunks 3 4 100 8 [] (omega arith) (omega arith)

alloc-Allocs_example :
    Allocs start (grown start at_200) (alloc start at_200)
    × Books start at_200 (is_empty start.free_stack) (alloc start at_200).1
    × Sound (alloc start at_200).1
unfolding start
alloc-Allocs_example = alloc-Allocs start at_200 (omega arith) start-Fresh start-Sound

abbrev busy : Allocator
unfolding start alloc
busy = (alloc start at_200).1

free_lem_example :
    Sound (free busy 116)
    × ((q : ℕ) → held (free busy 116) q ≡ held busy q)
    × (contains 116 busy.used_vec ≡ false → free busy 116 ≡ busy)
    × (contains 116 busy.used_vec ≡ true
        → (count 116 (free busy 116).used_vec ≡ 0)
          × ((free busy 116).free_stack ≡ 116 ∷ busy.free_stack))
unfolding busy
free_lem_example =
    free_lem busy 116 (alloc-Allocs start at_200 (omega arith) start-Fresh start-Sound).2

free-alloc_example : ((alloc start at_200).0 ≡ 116) × (free (alloc start at_200).1 116 ≡ start)
unfolding start
free-alloc_example = free-alloc start at_200 116 (108 ∷ 100 ∷ []) start-Sound refl

Reach-Sound_example : (0 < (alloc start at_200).1.obj_byte_size) × Sound (alloc start at_200).1
unfolding start
Reach-Sound_example = Reach-Sound (Reach.allocs at_200 start-Fresh start-Reach)

-- ===== src/DiskMem.antt =====
-- ne_server/nediskmemallocator.h and .cpp: chunks of one size, cut from files mapped into memory.
-- Addresses are numbers and 0 is the null pointer. What `open` and `mmap` answer is an argument of
-- each call: `none` is the value -1. The mutex makes each part of a call atomic; a call is taken
-- whole. Zeroing the new file changes no field and is left out.
pub mod Chunks
pub mod Stores
pub mod Laws
pub mod History
mod Tests
use neshare.Base.{
  ℕ, zero, suc, ◌+◌, ◌*◌, ◌/◌, ◌%◌, Bool, true, false, ◌&&◌, List, [], ◌∷◌, ◌++◌, Option, none,
  some, ltb, ◌==◌, if◌then◌else◌, nat_key, bytes_key, Bytes, Dict, insert, take, is_empty, contains,
  erase,
}

-- `DMA_START`
pub record DmaStart : Type 0 where
  pub start : ℕ
  pub fd : ℕ

pub record Allocator : Type 0 where
  pub obj_byte_size : ℕ
  pub count : ℕ
  pub grow_factor : ℕ
  pub backing_store_count : ℕ
  pub used_vec : List ℕ
  pub free_stack : List ℕ
  pub input_file_base : Bytes
  pub file_to_ds_map : Dict Bytes DmaStart

-- What the system answers to one attempt to create a backing store.
pub record Answer : Type 0 where
  pub opened : Option ℕ
  pub mapped : Option ℕ

abbrev pub max_data_len : ℕ
max_data_len = 256

-- `%d` of a number that is not negative
decimal_onto : ℕ → ℕ → Bytes → Bytes
decimal_onto zero n out = out
decimal_onto (suc f) n out =
    let out' = (n % 10 + 48) ∷ out in
    let rest = decimal_onto f (n / 10) out' in if ltb n 10 then out' else rest

decimal : ℕ → Bytes
unfolding decimal_onto
decimal n = decimal_onto (suc n) n []

-- `snprintf(buf, NE_MSG_MAX_DATA_LEN, "%s%d", ...)`
pub store_name : Bytes → ℕ → Bytes
unfolding decimal
store_name base n = take 255 (base ++ decimal n)

-- The loop that pushes the chunks. It ends by its test or with the fuel, and says where.
pub chunk_loop : ℕ → ℕ → ℕ → ℕ → List ℕ → ℕ × List ℕ
chunk_loop zero ptr end size stack = (ptr, stack)
chunk_loop (suc fuel) ptr end size stack =
    let rest = chunk_loop fuel (ptr + size) end size (ptr ∷ stack) in
    if ptr == end then (ptr, stack) else rest

pub new : Allocator
new = record {
  obj_byte_size = 0;
  count = 0;
  grow_factor = 2;
  backing_store_count = 0;
  used_vec = [];
  free_stack = [];
  input_file_base = [];
  file_to_ds_map = [];
}

-- A store that is mapped at `start` is recorded and cut into chunks.
add_store : Allocator → Bytes → ℕ → ℕ → Allocator
add_store a file fd start = record a {
  file_to_ds_map = insert file (record { start = start; fd = fd }) a.file_to_ds_map;
  free_stack =
      (chunk_loop (suc a.count) start (start + a.count * a.obj_byte_size) a.obj_byte_size
        a.free_stack).1;
}

pub create_disk_mem_file : Allocator → Answer → ℕ × Allocator
unfolding add_store store_name
create_disk_mem_file a os =
    let file = store_name a.input_file_base a.backing_store_count in
    let b = record a { backing_store_count = a.backing_store_count + 1 } in
    elim os.opened [
      | none ↦ (1, b)
      | some fd ↦ elim os.mapped [ none ↦ (1, b) | some start ↦ (0, add_store b file fd start) ]
    ]

-- `initialize`; `none` is a failed assertion that no chunk is held.
pub initialize : Allocator → Bytes → ℕ → ℕ → Answer → Option (ℕ × Allocator)
initialize a input_file size initial os =
    if is_empty a.used_vec && is_empty a.free_stack
    then some (
        create_disk_mem_file
          (record a {
            obj_byte_size = size;
            count = initial;
            grow_factor = 2;
            input_file_base = input_file;
          })
          os)
    else none

-- The second half of `alloc`: the top of the stack, or null.
unfoldable pub take_chunk : Allocator → List ℕ → ℕ × Allocator
take_chunk a [] = (0, a)
take_chunk a (ptr ∷ rest) = (ptr, record a { free_stack = rest; used_vec = a.used_vec ++ ptr ∷ [] })

unfoldable pub alloc : Allocator → Answer → ℕ × Allocator
unfolding take_chunk
alloc a os =
    if is_empty a.free_stack
    then (let (failed, b) = create_disk_mem_file a os in
        if failed == 0 then take_chunk b b.free_stack else (0, b))
    else take_chunk a a.free_stack

unfoldable pub free : Allocator → ℕ → Allocator
free a ptr =
    if ptr == 0
    then a
    else (if contains ptr a.used_vec
        then record a { used_vec = erase ptr a.used_vec; free_stack = ptr ∷ a.free_stack }
        else a)

pub shutdown : Allocator → Allocator
shutdown a = record a { file_to_ds_map = []; used_vec = []; free_stack = [] }

-- ===== src/DiskMem/Stores.antt =====
-- The chunks that the allocator holds, and what a new store adds to them.
use neshare.Base.{
  ℕ, suc, ◌+◌, ◌*◌, ◌≤◌, ◌<◌, ◌≡◌, ◌∙◌, ◌⊎◌, inl, inr, List, [], ◌++◌, none, some, arith, nat_key,
  count, count-append, Option-cases,
}
use native.Mathlib.Decide.{dec_le}
use neshare.DiskMem.Chunks.{
  chunks, chunk_loop-chunks, count-chunks-le, count-chunks_below, chunks_range, chunks_apart,
}
use neshare.DiskMem.{Allocator, Answer, create_disk_mem_file}

-- How often an address is held, in use or free.
abbrev pub held : Allocator → ℕ → ℕ
held a p = count p a.used_vec + count p a.free_stack

-- Addresses held as often as `f` says: none twice, none null, and no two chunks overlap.
pub record Disjoint (size : ℕ) (f : ℕ → ℕ) : Type 0 where
  pub once : (p : ℕ) → f p ≤ 1
  pub nonnull : f 0 ≡ 0
  pub apart : (p q : ℕ) → 1 ≤ f p → 1 ≤ f q → p < q → p + size ≤ q

abbrev pub Sound : Allocator → Type 0
Sound a = Disjoint a.obj_byte_size (held a)

pub Disjoint-congr :
    (size : ℕ) (f g : ℕ → ℕ) → ((p : ℕ) → g p ≡ f p) → Disjoint size f → Disjoint size g
Disjoint-congr size f g e v = record {
  once = λ p. omega (arith, e p, v.once p);
  nonnull = e 0 ∙ v.nonnull;
  apart = λ p q h k. v.apart p q (omega (arith, e p)) (omega (arith, e q));
}

-- A fresh region adds its chunks to those that are held.
Disjoint-chunks :
    (n start size : ℕ) (f : ℕ → ℕ)
    → 0 < size
    → 0 < start
    → ((p : ℕ) → 1 ≤ f p → (p + size ≤ start) ⊎ (start + n * size ≤ p))
    → Disjoint size f
    → Disjoint size (λ p. count p (chunks start size n) + f p)
Disjoint-chunks n start size f pos low fresh v =
    let new = λ (p : ℕ). count p (chunks start size n) in
    let one = λ (p : ℕ). count-chunks-le n start size p pos in
    record {
      once = λ p. elim (dec_le 1 (new p)) [
        | yes h ↦ elim (dec_le 1 (f p)) [
          | yes k ↦ absurd (omega (arith, fresh p k, chunks_range n start size p h))
          | no k ↦ omega (arith, one p)
        ]
        | no h ↦ omega (arith, v.once p)
      ];
      nonnull = omega (arith, count-chunks_below n start size 0 low, v.nonnull);
      apart = λ p q h k lt. elim (dec_le 1 (new p)) [
        | yes hp ↦ elim (dec_le 1 (new q)) [
          | yes hq ↦ chunks_apart n start size p q hp hq lt
          | no hq ↦ omega (arith, fresh q, chunks_range n start size p hp)
        ]
        | no hp ↦ elim (dec_le 1 (new q)) [
          | yes hq ↦ omega (arith, fresh p, chunks_range n start size q hq)
          | no hq ↦ v.apart p q (omega arith) (omega arith) lt
        ]
      ];
    }

-- What `mmap` promises: a region that is not at address 0 and meets no chunk that is held.
abbrev pub Fresh : Allocator → Answer → Type 0
Fresh a os =
    (start : ℕ)
    → os.mapped ≡ some start
    → (0 < start)
      × ((p : ℕ)
          → 1 ≤ held a p
          → (p + a.obj_byte_size ≤ start) ⊎ (start + a.count * a.obj_byte_size ≤ p))

-- The chunks that a new store adds.
abbrev pub added : Allocator → Answer → List ℕ
added a os = elim os.opened [
  | none ↦ []
  | some fd ↦ elim os.mapped [ none ↦ [] | some start ↦ chunks start a.obj_byte_size a.count ]
]

-- A store that is created puts its chunks on the free stack and touches no chunk in use; a store
-- that is not created changes neither list.
pub create_disk_mem_file_lem :
    (a : Allocator) (os : Answer)
    → 0 < a.obj_byte_size
    → let b = (create_disk_mem_file a os).1 in
      (b.used_vec ≡ a.used_vec)
      × (b.free_stack ≡ added a os ++ a.free_stack)
      × (b.obj_byte_size ≡ a.obj_byte_size)
      × (b.count ≡ a.count)
unfolding create_disk_mem_file
create_disk_mem_file_lem a os pos = elim (Option-cases os.opened) [
  | inl e ↦ ground arith
  | inr (fd, e) ↦ elim (Option-cases os.mapped) [
    | inl m ↦ ground arith
    | inr (start, m) ↦
        let size = a.obj_byte_size in
        ground
          (arith, chunk_loop-chunks a.count (suc a.count) start size a.free_stack pos (omega arith))
  ]
]

-- A store whose region is fresh keeps the allocator sound.
pub create_disk_mem_file-Sound :
    (a : Allocator) (os : Answer)
    → 0 < a.obj_byte_size
    → Fresh a os
    → Sound a
    → Sound (create_disk_mem_file a os).1
create_disk_mem_file-Sound a os pos fresh v =
    let (used, stack, size, _) = create_disk_mem_file_lem a os pos in
    let b = (create_disk_mem_file a os).1 in
    let same : (p : ℕ) → held b p ≡ count p (added a os) + held a p =
      λ p. rw (used, stack, count-append p (added a os) a.free_stack) (omega arith) in
    let none_new : Disjoint a.obj_byte_size (λ p. 0 + held a p) =
      Disjoint-congr a.obj_byte_size (held a) (λ p. 0 + held a p) (λ p. omega arith) v in
    rw size (
      Disjoint-congr a.obj_byte_size (λ p. count p (added a os) + held a p) (held b) same
        (elim (Option-cases os.opened) [
          | inl e ↦ rw (e, added) none_new
          | inr (fd, e) ↦ elim (Option-cases os.mapped) [
            | inl m ↦ rw (e, m) none_new
            | inr (start, m) ↦
                rw (e, m)
                  (Disjoint-chunks a.count start a.obj_byte_size (held a) pos (fresh start m).0
                    (fresh start m).1 v)
          ]
        ]))

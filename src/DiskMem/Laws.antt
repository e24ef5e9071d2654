-- ===== src/DiskMem/Laws.antt =====
-- What `alloc` and `free` do to the chunks that the allocator holds.
use neshare.Base.{
  Bool, none, some, Option-cases, Dict, Bytes, insert, bytes_key, ℕ, ◌+◌, ◌<◌, ◌≡◌, refl, sym, ap,
  ◌∙◌, ◌⊎◌, inl, inr, true, false, List, [], ◌∷◌, ◌++◌, arith, ◌==◌, if◌then◌else◌, nat_key, count,
  contains, count-append, contains-count, count-erase, append_empty, ==_refl, erase_last,
  contains_last, Bool-cases, is_empty,
}
use neshare.DiskMem.{
  DmaStart, store_name, add_store, Allocator, Answer, create_disk_mem_file, take_chunk, alloc, free,
}
use neshare.DiskMem.Stores.{
  held, Sound, Disjoint-congr, Fresh, added, create_disk_mem_file_lem, create_disk_mem_file-Sound,
}

-- The stores that are recorded after an attempt to create one
abbrev pub stores : Allocator → Answer → Dict Bytes DmaStart
stores a os = elim os.opened [
  | none ↦ a.file_to_ds_map
  | some fd ↦ elim os.mapped [
    | none ↦ a.file_to_ds_map
    | some start ↦
        insert (store_name a.input_file_base a.backing_store_count)
          (record { start = start; fd = fd }) a.file_to_ds_map
  ]
]

-- The rest of the state: an attempt to create a store is counted and records the store that it made,
-- without one nothing changes.
abbrev pub Books : Allocator → Answer → Bool → Allocator → Type 0
Books a os attempt b =
    (b.grow_factor ≡ a.grow_factor)
    × (b.input_file_base ≡ a.input_file_base)
    × (b.backing_store_count
        ≡ (if attempt then a.backing_store_count + 1 else a.backing_store_count))
    × (b.file_to_ds_map ≡ (if attempt then stores a os else a.file_to_ds_map))

create-Books : (a : Allocator) (os : Answer) → Books a os true (create_disk_mem_file a os).1
unfolding create_disk_mem_file add_store
create-Books a os = elim (Option-cases os.opened) [
  | inl e ↦ rw e (refl, refl, refl, refl)
  | inr (fd, e) ↦ elim (Option-cases os.mapped) [
    | inl f ↦ rw (e, f) (refl, refl, refl, refl)
    | inr (start, f) ↦ rw (e, f) (refl, refl, refl, refl)
  ]
]

take_chunk-Books :
    (a b : Allocator) (os : Answer) (attempt : Bool) (stack : List ℕ)
    → Books a os attempt b
    → Books a os attempt (take_chunk b stack).1
unfolding take_chunk
take_chunk-Books a b os attempt [] h = h
take_chunk-Books a b os attempt (p ∷ rest) h = h

-- What `alloc` hands out: null with an empty free stack, or a chunk that was not in use and now is,
-- the last one of the vector.
abbrev pub Allocs : Allocator → List ℕ → ℕ × Allocator → Type 0
Allocs a new r =
    let b = r.1 in
    (b.obj_byte_size ≡ a.obj_byte_size)
    × (b.count ≡ a.count)
    × (((r.0 ≡ 0)
          × (a.free_stack ≡ [])
          × (new ≡ [])
          × (b.used_vec ≡ a.used_vec)
          × (b.free_stack ≡ []))
        ⊎ ((0 < r.0)
            × (held a r.0 + count r.0 new ≡ 1)
            × (count r.0 a.used_vec ≡ 0)
            × (b.used_vec ≡ a.used_vec ++ r.0 ∷ [])
            × (r.0 ∷ b.free_stack ≡ new ++ a.free_stack)))

take_chunk-Allocs :
    (a b : Allocator) (stack : List ℕ)
    → b.free_stack ≡ stack
    → Sound b
    → (new : List ℕ) → (b.used_vec ≡ a.used_vec)
    → (stack ≡ new ++ a.free_stack)
    → (b.obj_byte_size ≡ a.obj_byte_size)
    → (b.count ≡ a.count)
    → Allocs a new (take_chunk b stack)
unfolding take_chunk
take_chunk-Allocs a b [] e v new u s z c =
    let (e', f') = append_empty new a.free_stack s in (z, c, inl (refl, f', e', u, e))
take_chunk-Allocs a b (p ∷ rest) e v new u s z c =
    let top : count p b.free_stack ≡ 1 + count p rest = rw e (rw ==_refl) in
    let split = ap (count p) s ∙ count-append p new a.free_stack in
    let free : count p b.free_stack ≡ count p new + count p a.free_stack = ap (count p) e ∙ split in
    let same = ap (count p) u in
    let low : 0 < p = elim (Bool-cases (p == 0)) [
      | inl z' ↦
          let at0 : held b p ≡ 0 = let z0 : p ≡ 0 = ground arith in rw z0 v.nonnull in
          absurd (omega arith)
      | inr n ↦ ground arith
    ] in
    (z, c, inr (low, omega (arith, v.once p), omega (arith, v.once p), rw u, s))

take_chunk-Sound :
    (b : Allocator) (stack : List ℕ) → b.free_stack ≡ stack → Sound b → Sound (take_chunk b stack).1
unfolding take_chunk
take_chunk-Sound b [] e v = v
take_chunk-Sound b (p ∷ rest) e v =
    let b' = (take_chunk b (p ∷ rest)).1 in
    Disjoint-congr b.obj_byte_size (held b) (held b')
      (λ q. rw (e, count-append q b.used_vec (p ∷ [])) (omega arith)) v

create-fails :
    (a : Allocator) (os : Answer) → (create_disk_mem_file a os).0 == 0 ≡ false → added a os ≡ []
unfolding create_disk_mem_file
create-fails a os h = ground arith

-- The chunks that `alloc` adds: those of a new store, when the free stack is empty.
abbrev pub grown : Allocator → Answer → List ℕ
grown a os = if is_empty a.free_stack then added a os else []

is_empty-nil : (xs : List ℕ) → is_empty xs ≡ true → xs ≡ []
is_empty-nil [] h = refl
is_empty-nil (x ∷ xs) h = cc

-- A sound allocator hands out null, when the free stack is empty and no chunk is added, or the top of
-- the free stack behind the chunks that are added, which was not in use and becomes the last one in
-- use. Only with an empty free stack a store is attempted: the attempt is counted, and the store is
-- recorded and its chunks are added if it could be opened and mapped. Nothing else changes, and the
-- allocator stays sound. The objects have a size, and a mapping is made at a fresh region.
pub alloc-Allocs :
    (a : Allocator) (os : Answer)
    → 0 < a.obj_byte_size
    → Fresh a os
    → Sound a
    → Allocs a (grown a os) (alloc a os)
      × Books a os (is_empty a.free_stack) (alloc a os).1
      × Sound (alloc a os).1
unfolding alloc
alloc-Allocs a os pos fresh v =
    let (used, stack, size, n) = create_disk_mem_file_lem a os pos in
    let b = (create_disk_mem_file a os).1 in
    let w : Sound b = create_disk_mem_file-Sound a os pos fresh v in
    elim (Bool-cases (is_empty a.free_stack)) [
      | inr e ↦ rw e (
        take_chunk-Allocs a a a.free_stack refl v [] refl refl refl refl,
        take_chunk-Books a a os false a.free_stack (refl, refl, refl, refl),
        take_chunk-Sound a a.free_stack refl v,
      )
      | inl e ↦ elim (Bool-cases ((create_disk_mem_file a os).0 == 0)) [
        | inl done ↦
            rw (e, done)
              (
                take_chunk-Allocs a b b.free_stack refl w (added a os) used stack size n,
                take_chunk-Books a b os true b.free_stack (create-Books a os),
                take_chunk-Sound b b.free_stack refl w,
              )
        | inr failed ↦
            let none_new = create-fails a os failed in
            let none_old = is_empty-nil a.free_stack e in
            rw (e, failed)
              (
                (size, n, inl (refl, none_old, none_new, used, rw (stack, none_new) none_old)),
                create-Books a os,
                w,
              )
      ]
    ]

held-free : (a : Allocator) (p q : ℕ) → held (free a p) q ≡ held a q
unfolding free
held-free a p q = ground (arith, count-erase p q a.used_vec)

pub obj_byte_size-free : (a : Allocator) (p : ℕ) → (free a p).obj_byte_size ≡ a.obj_byte_size
unfolding free
obj_byte_size-free a p = ground arith

free-Sound : (a : Allocator) (p : ℕ) → Sound a → Sound (free a p)
free-Sound a p v =
    rw obj_byte_size-free
      (Disjoint-congr a.obj_byte_size (held a) (held (free a p)) (held-free a p) v)

-- A chunk in use goes back on top of the free stack; any other pointer, null included, changes
-- nothing. The allocator stays sound.
pub free_lem :
    (a : Allocator) (p : ℕ)
    → Sound a
    → Sound (free a p)
      × ((q : ℕ) → held (free a p) q ≡ held a q)
      × (contains p a.used_vec ≡ false → free a p ≡ a)
      × (contains p a.used_vec ≡ true
          → (count p (free a p).used_vec ≡ 0) × ((free a p).free_stack ≡ p ∷ a.free_stack))
unfolding free
free_lem a p v = (
  free-Sound a p v,
  held-free a p,
  λ h. ground arith,
  λ h. elim (Bool-cases (p == 0)) [
    | inl z ↦
        let z0 : p ≡ 0 = ground arith in
        let at0 : held a p ≡ 0 = rw z0 v.nonnull in
        absurd (omega (arith, contains-count p a.used_vec h))
    | inr n ↦ rw (n, h) (omega (arith, v.once p, count-erase p p a.used_vec h, at_self), refl)
  ],
)
  where
    at_self : ◌≡◌ {A = ℕ} (if p == p then 1 else 0) 1
    at_self = rw ==_refl

-- Freeing the chunk that `alloc` has just taken from the stack gives the allocator back.
pub free-alloc :
    (a : Allocator) (os : Answer) (p : ℕ) (rest : List ℕ)
    → Sound a
    → a.free_stack ≡ p ∷ rest
    → ((alloc a os).0 ≡ p) × (free (alloc a os).1 p ≡ a)
unfolding alloc free take_chunk
free-alloc a os p rest v e =
    let (_, _, gives) = take_chunk-Allocs a a (p ∷ rest) e v [] refl (sym e) refl refl in
    ground (arith, erase_last p a.used_vec, contains_last p a.used_vec)

-- ===== src/DiskMem/Chunks.antt =====
-- The chunks of one mapped region.
use neshare.Base.{
  ℕ, zero, suc, ◌+◌, ◌*◌, ◌≤◌, ◌<◌, ◌≡◌, refl, inl, inr, List, [], ◌∷◌, ◌++◌, arith, ◌==◌, nat_key,
  count, count-append, append_assoc, false, Bool-cases,
}
use neshare.DiskMem.{chunk_loop}

-- The addresses at which `n` chunks of `size` bytes start, from `start` on, the last one first.
abbrev pub chunks : ℕ → ℕ → ℕ → List ℕ
chunks start size zero = []
chunks start size (suc n) = chunks (start + size) size n ++ start ∷ []

-- The loop ends by its test, at the end of the region, after it has pushed each chunk once.
pub chunk_loop-chunks :
    (n fuel start size : ℕ) (stack : List ℕ)
    → 0 < size
    → n < fuel
    → chunk_loop fuel start (start + n * size) size stack
      ≡ (start + n * size, chunks start size n ++ stack)
unfolding chunk_loop
chunk_loop-chunks n zero start size stack pos h = absurd (omega arith)
chunk_loop-chunks zero (suc fuel) start size stack pos h = ground arith
chunk_loop-chunks (suc n) (suc fuel) start size stack pos h =
    let e : start + suc n * size ≡ start + size + n * size = omega arith in
    let more : start == start + size + n * size ≡ false = ground arith in
    rw (e, more)
      (rw (chunk_loop-chunks n fuel (start + size) size (start ∷ stack) pos (omega arith))
        (rw append_assoc))

pub count-chunks_below : (n start size p : ℕ) → p < start → count p (chunks start size n) ≡ 0
count-chunks_below zero start size p h = refl
count-chunks_below (suc n) start size p h = ground (
  arith,
  count-append p (chunks (start + size) size n) (start ∷ []),
  count-chunks_below n (start + size) size p,
)

pub count-chunks-le : (n start size p : ℕ) → 0 < size → count p (chunks start size n) ≤ 1
count-chunks-le zero start size p h = omega arith
count-chunks-le (suc n) start size p h = ground (
  arith,
  count-append p (chunks (start + size) size n) (start ∷ []),
  count-chunks_below n (start + size) size p,
  count-chunks-le n (start + size) size p h,
)

-- A chunk of the region starts at or after the region's start and ends by its end.
pub chunks_range :
    (n start size p : ℕ)
    → 1 ≤ count p (chunks start size n)
    → (start ≤ p) × (p + size ≤ start + n * size)
chunks_range zero start size p h = absurd (omega arith)
chunks_range (suc n) start size p h =
    let here = count-append p (chunks (start + size) size n) (start ∷ []) in
    elim (Bool-cases (start == p)) [
      | inl e ↦ ground arith
      | inr e ↦
          let below = chunks_range n (start + size) size p (ground (arith, here)) in
          (omega arith, omega arith)
    ]

-- Two different chunks of the region do not overlap.
pub chunks_apart :
    (n start size p q : ℕ)
    → 1 ≤ count p (chunks start size n)
    → 1 ≤ count q (chunks start size n)
    → p < q
    → p + size ≤ q
chunks_apart zero start size p q h k lt = absurd (omega arith)
chunks_apart (suc n) start size p q h k lt =
    let rest = chunks (start + size) size n in
    let hp = count-append p rest (start ∷ []) in
    let hq = count-append q rest (start ∷ []) in
    let low = chunks_range (suc n) start size p h in
    let beyond : 1 ≤ count q rest = ground arith in
    let far = chunks_range n (start + size) size q beyond in
    elim (Bool-cases (start == p)) [
      | inl e ↦ ground arith
      | inr e ↦ chunks_apart n (start + size) size p q (ground arith) beyond lt
    ]

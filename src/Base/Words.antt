-- ===== src/Base/Words.antt =====
-- `unsigned long` of the 32-bit targets that the wire format is written for: numbers modulo 2^32.
use Prim.Native.Nat.{ℕ, ◌+◌, ◌-◌, ◌%◌, ◌^◌}
use mathlib.Core.Path.{◌≡◌}
use native.Mathlib.Omega.{arith}

abbrev pub word : ℕ
word = 2 ^ 32

abbrev pub add32 : ℕ → ℕ → ℕ
add32 a b = (a + b) % word

abbrev pub sub32 : ℕ → ℕ → ℕ
sub32 a b = (a + (word - b % word)) % word

pub sub32-add32 : (a b c : ℕ) → sub32 (add32 a (b + c)) b ≡ add32 a c
sub32-add32 a b c = omega arith

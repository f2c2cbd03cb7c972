-- ===== src/Wstcp/Bits.antt =====
-- Masks on one byte, each checked over all values.
use Prim.Native.Nat.{bit_and, bit_xor}
use electrs_cash.Common.{
  ℕ, zero, suc, ◌*◌, ◌/◌, ◌%◌, ◌<◌, ◌≡◌, refl, Bool, true, ◌&&◌, arith, ◌==◌, ==_iff,
}

-- The test passes on each number below the bound.
each : (ℕ → Bool) → ℕ → Bool
each test zero = true
each test (suc bound) = each test bound && test bound

each_at : (test : ℕ → Bool) (bound i : ℕ) → i < bound → each test bound ≡ true → test i ≡ true
unfolding each
each_at test zero i below passed = absurd (omega arith)
each_at test (suc bound) i below passed = ground (arith, each_at test bound i)

low_seven_table : each (λ x. bit_and x 0b0111_1111 == x % 128) 256 ≡ true
unfolding each
low_seven_table = refl

pub bit_and_low_seven : (x : ℕ) → x < 256 → bit_and x 0b0111_1111 ≡ x % 128
bit_and_low_seven x h = (==_iff _ (x % 128)).0 (each_at _ 256 x h low_seven_table)

top_table : each (λ x. bit_and x 0b1000_0000 == x / 128 * 128) 256 ≡ true
unfolding each
top_table = refl

pub bit_and_top : (x : ℕ) → x < 256 → bit_and x 0b1000_0000 ≡ x / 128 * 128
bit_and_top x h = (==_iff _ (x / 128 * 128)).0 (each_at _ 256 x h top_table)

xor_table : each (λ m. each (λ x. bit_xor (bit_xor x m) m == x) 256) 256 ≡ true
unfolding each
xor_table = refl

pub bit_xor_twice : (x m : ℕ) → x < 256 → m < 256 → bit_xor (bit_xor x m) m ≡ x
bit_xor_twice x m hx hm = (==_iff _ x).0 (each_at _ 256 x hx (each_at _ 256 m hm xor_table))

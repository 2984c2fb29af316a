-- ===== src/Go/Integer.antt =====
-- Go's `int64` and `int` (64 bits), as bit patterns below 2 ^ 64 that wrap around.
use hcloud_operator.Base.{ℕ, ◌+◌, ◌%◌, Bool, true, false, ltb, ◌&&◌, ◌==◌, nat_eq, not, ◌≡◌, arith}

abbrev pub Int64 : Type 0
Int64 = ℕ

-- `n++`
abbrev pub increment : Int64 → Int64
increment n = (n + 1) % 0x1_0000_0000_0000_0000

-- `n--`
abbrev pub decrement : Int64 → Int64
decrement n = (n + 0xFFFF_FFFF_FFFF_FFFF) % 0x1_0000_0000_0000_0000

-- `n < 0`, a signed comparison
abbrev pub is_negative : Int64 → Bool
is_negative n = not (ltb n 0x8000_0000_0000_0000)

-- `n > 0`, a signed comparison
abbrev pub is_positive : Int64 → Bool
is_positive n = ltb 0 n && ltb n 0x8000_0000_0000_0000

-- `a < b`, a signed comparison: adding 2 ^ 63 turns the order of the signed values into that of ℕ
abbrev pub lt_int : Int64 → Int64 → Bool
lt_int a b =
    ltb ((a + 0x8000_0000_0000_0000) % 0x1_0000_0000_0000_0000)
      ((b + 0x8000_0000_0000_0000) % 0x1_0000_0000_0000_0000)

-- `n != 0`
abbrev pub is_set : Int64 → Bool
is_set n = not (n == 0)

pub lt_int_irrefl : (a : Int64) → lt_int a a ≡ false
lt_int_irrefl a = ground arith

pub lt_int_asym : (a b : Int64) → lt_int a b ≡ true → lt_int b a ≡ false
lt_int_asym a b h = ground arith

pub lt_int_trans_not :
    (a b c : Int64) → lt_int b a ≡ false → lt_int c b ≡ false → lt_int c a ≡ false
lt_int_trans_not a b c h k = ground arith

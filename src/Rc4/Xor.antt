-- ===== src/Rc4/Xor.antt =====
-- The exclusive or of src/rc4.c undoes itself.
use solidircd.Base.{ℕ, zero, suc, ◌+◌, ◌*◌, ◌/◌, ◌%◌, ◌^◌, ◌<◌, ◌≡◌, arith}
use solidircd.Rc4.{xor_bits, xor}

halves : (b m : ℕ) → b < 2 → ((b + 2 * m) % 2 ≡ b) × ((b + 2 * m) / 2 ≡ m)
halves b m h = (omega arith, omega arith)

-- Twice the same key gives the number back, up to the width.
xor_bits_twice : (w a b : ℕ) → a < 2 ^ w → xor_bits w (xor_bits w a b) b ≡ a
unfolding xor_bits
xor_bits_twice zero a b h = omega arith
xor_bits_twice (suc w) a b h =
    let low = (a % 2 + b % 2) % 2 in
    let high = xor_bits w (a / 2) (b / 2) in
    let split = halves low high (omega arith) in
    rw (split.0, split.1, xor_bits_twice w (a / 2) (b / 2) (omega arith)) (omega arith)

pub xor_twice : (a b : ℕ) → a < 256 → xor (xor a b) b ≡ a
xor_twice a b h = xor_bits_twice 8 a b h

xor_bits-lt : (w a b : ℕ) → xor_bits w a b < 2 ^ w
unfolding xor_bits
xor_bits-lt zero a b = omega arith
xor_bits-lt (suc w) a b = omega (arith, xor_bits-lt w (a / 2) (b / 2))

pub xor-lt : (a b : ℕ) → xor a b < 256
xor-lt a b = xor_bits-lt 8 a b

-- ===== src/Transport/Auth/Exponent.antt =====
-- The numbers of a key.
use jungle_gaming_challenge.Base.{ℕ, ◌+◌, ◌*◌, ◌%◌, ◌^◌, ◌≡◌, refl, ap, ◌∙◌, arith, List, [], ◌∷◌}
use jungle_gaming_challenge.Transport.Auth.Keys.{set_bytes, exponent_of}

step : (n b : ℕ) → ((n % 2 ^ 64 * 2 ^ 8) % 2 ^ 64 + b) % 2 ^ 64 ≡ (n * 256 + b) % 2 ^ 64
step n b = omega arith

exponent_of_rest :
    (n : ℕ) (bytes : List ℕ) → exponent_of (n % 2 ^ 64) bytes ≡ set_bytes n bytes % 2 ^ 64
unfolding exponent_of set_bytes
exponent_of_rest n [] = refl
exponent_of_rest n (b ∷ bytes) =
    ap (λ e. exponent_of e bytes) (step n b) ∙ exponent_of_rest (n * 256 + b) bytes

-- The loop over the bytes of an exponent computes, on an int of 64 bits, what `big.Int.SetBytes` computes
-- without bound, up to multiples of 2^64: for every list of bytes, and so exactly for a number that fits.
pub exponent_of-set_bytes : (bytes : List ℕ) → exponent_of 0 bytes ≡ set_bytes 0 bytes % 2 ^ 64
exponent_of-set_bytes bytes = exponent_of_rest 0 bytes

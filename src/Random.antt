-- ===== src/Random.antt =====
-- The per-thread PRNG (SplitMix64): `next_random_byte` of crates/oracle-core/src/state.rs and
-- `seed_for` of shared.rs.
pub mod Laws
use wa_wasm_oracle.Prelude.{ℕ, zero, suc, ◌+◌, ◌*◌, ◌/◌, ◌%◌, ◌^◌, List, [], ◌∷◌, bit_and, bit_xor}

abbrev pub rng_seed : ℕ
rng_seed = 0x5741_5F4F_5241_434C

abbrev pub gamma : ℕ
gamma = 0x9E37_79B9_7F4A_7C15

-- `wrapping_mul` and `x ^ (x >> k)` on 64 bits.
abbrev pub mul64 : ℕ → ℕ → ℕ
mul64 a b = a * b % 2 ^ 64

abbrev pub xor_shift : ℕ → ℕ → ℕ
xor_shift k x = bit_xor x (x / 2 ^ k)

unfoldable pub seed_for : ℕ → ℕ
seed_for thread = bit_xor rng_seed (mul64 thread gamma)

-- The byte that a state gives, and the state after it.
unfoldable pub mix : ℕ → ℕ
mix state =
    let a = mul64 (xor_shift 30 state) 0xBF58_476D_1CE4_E5B9 in
    let b = mul64 (xor_shift 27 a) 0x94D0_49BB_1331_11EB in bit_and (xor_shift 31 b) 0xff % 256

unfoldable pub next_random_byte : ℕ → ℕ × ℕ
next_random_byte rng = let state = (rng + gamma) % 2 ^ 64 in (state, mix state)

-- `for _ in 0..len { bytes.push(state.next_random_byte()) }`
unfoldable pub random_bytes : ℕ → ℕ → ℕ × List ℕ
unfolding next_random_byte
random_bytes zero rng = (rng, [])
random_bytes (suc len) rng =
    let (rng', b) = next_random_byte rng in
    let (rng'', bs) = random_bytes len rng' in (rng'', b ∷ bs)

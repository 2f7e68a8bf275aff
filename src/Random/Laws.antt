-- ===== src/Random/Laws.antt =====
-- The stream of a thread is a function of its seed and of how many bytes were taken.
use wa_wasm_oracle.Prelude.{
  ℕ, zero, suc, ◌+◌, ◌*◌, ◌%◌, ◌^◌, ◌<◌, ◌≡◌, refl, ◌∙◌, ap, List, ◌∷◌, ◌++◌, arith, length, All,
}
use native.Mathlib.Nat.{zero-add}
use wa_wasm_oracle.Random.{gamma, mix, next_random_byte, random_bytes}

-- The state behind the first `n` bytes.
abbrev pub state_after : ℕ → ℕ → ℕ
state_after n rng = (rng + n * gamma) % 2 ^ 64

state_after_next : (n rng : ℕ) → state_after n (next_random_byte rng).0 ≡ state_after (suc n) rng
unfolding next_random_byte
state_after_next n rng = omega arith

mix-lt : (state : ℕ) → mix state < 256
unfolding mix
mix-lt state = omega arith

-- From a state of 64 bits `len` bytes are drawn, each below 256, and the state moves by `len` steps
-- of the constant, whatever the bytes are.
pub random_bytes_lem :
    (len rng : ℕ)
    → rng < 2 ^ 64
    → (length (random_bytes len rng).1 ≡ len)
      × All (λ b. b < 256) (random_bytes len rng).1
      × ((random_bytes len rng).0 ≡ state_after len rng)
unfolding random_bytes
random_bytes_lem zero rng h = (refl, tt, omega arith)
random_bytes_lem (suc len) rng h =
    let (l, b, e) = random_bytes_lem len (next_random_byte rng).0 (omega arith) in
    (ap suc l, (mix-lt _, b), e ∙ state_after_next len rng)

-- Taking `a` bytes and then `b` more gives the `a + b` bytes that one call gives.
pub random_bytes-add :
    (a b rng : ℕ)
    → let (rng', front) = random_bytes a rng in
      let (rng'', back) = random_bytes b rng' in random_bytes (a + b) rng ≡ (rng'', front ++ back)
unfolding random_bytes
random_bytes-add zero b rng = rw zero-add
random_bytes-add (suc a) b rng =
    let e : suc a + b ≡ suc (a + b) = omega arith in
    let head : ℕ = mix ((rng + gamma) % 2 ^ 64) in
    rw e
      (ap (λ (r : ℕ × List ℕ). (r.0, head ∷ r.1)) (random_bytes-add a b ((rng + gamma) % 2 ^ 64)))

-- The generator has full period: below 2^64 bytes no state comes back.
pub state_after-injective :
    (n m rng : ℕ) → n < 2 ^ 64 → m < 2 ^ 64 → state_after n rng ≡ state_after m rng → n ≡ m
state_after-injective n m rng hn hm e = omega arith

-- ===== src/Shared/Numbers.antt =====
-- The numbers of log lines under any interleaving of threads.
use wa_wasm_oracle.Prelude.{
  ℕ, ◌+◌, ◌^◌, ◌≤◌, ◌<◌, ◌≡◌, refl, List, [], ◌∷◌, ◌++◌, map, arith, length, leb, ◌==◌,
  if◌then◌else◌, Bool-cases, inl, inr, ap,
}
use wa_wasm_oracle.Shared.{SharedHost, LogLine, max_log_lines, reserve_seq, push_line}

-- The log, and the numbers that threads hold between the two steps of `log`.
pub record Logging : Type 0 where
  pub shared : SharedHost
  pub reserved : List ℕ

-- One atomic step of some thread: it takes a number (fewer than 2^64 were taken before), or pushes
-- the line of a number that it took.
pub data LogStep : Logging → Logging → Type 0 where
  reserve :
      (s : SharedHost) (held : List ℕ)
      → s.next_seq + 1 < 2 ^ 64
      → LogStep
          (record { shared = s; reserved = held })
          (record { shared = (reserve_seq s).0; reserved = (reserve_seq s).1 ∷ held })
  push :
      (s : SharedHost) (front back : List ℕ) (seq thread : ℕ) (line : List ℕ)
      → LogStep
          (record { shared = s; reserved = front ++ (seq ∷ back) })
          (record { shared = push_line seq thread line s; reserved = front ++ back })

pub data LogSteps (l : Logging) : Logging → Type 0 where
  start : LogSteps l l
  step : {m n : Logging} → LogSteps l m → LogStep m n → LogSteps l n

abbrev pub count : ℕ → List ℕ → ℕ
count n [] = 0
count n (m ∷ ms) = (if m == n then 1 else 0) + count n ms

count-append : (n : ℕ) (xs ys : List ℕ) → count n (xs ++ ys) ≡ count n xs + count n ys
count-append n [] ys = omega arith
count-append n (x ∷ xs) ys = omega (arith, count-append n xs ys)

-- The numbers of the lines in a log.
abbrev pub seqs : List LogLine → List ℕ
seqs = map (λ (l : LogLine). l.seq)

seqs-append : (xs ys : List LogLine) → seqs (xs ++ ys) ≡ seqs xs ++ seqs ys
seqs-append [] ys = refl
seqs-append (x ∷ xs) ys = ap (λ t. x.seq ∷ t) (seqs-append xs ys)

-- How often a number is in use: by a line in the log, or by a thread that is about to push one.
abbrev pub uses : ℕ → Logging → ℕ
uses n l = count n (seqs l.shared.trace.logs) + count n l.reserved

-- Every number in use is below `next_seq`, and none is in use twice.
pub record IsNumbered (l : Logging) : Type 0 where
  pub once : (n : ℕ) → uses n l ≤ 1
  pub below : (n : ℕ) → l.shared.next_seq ≤ n → uses n l ≡ 0

push-uses :
    (s : SharedHost) (seq thread n : ℕ) (line : List ℕ)
    → count n (seqs (push_line seq thread line s).trace.logs)
      ≤ count n (seqs s.trace.logs) + count n (seq ∷ [])
unfolding push_line
push-uses s seq thread n line = elim (Bool-cases (leb max_log_lines (length s.trace.logs))) [
  | inl full ↦ rw full (omega arith)
  | inr room ↦
      rw
        (
          room,
          seqs-append s.trace.logs (record { seq = seq; thread = thread; text = line } ∷ []),
          count-append n (seqs s.trace.logs) (seq ∷ []),
        )
        (omega arith)
]

push-next_seq :
    (s : SharedHost) (seq thread : ℕ) (line : List ℕ)
    → (push_line seq thread line s).next_seq ≡ s.next_seq
unfolding push_line
push-next_seq s seq thread line = ground arith

LogStep-IsNumbered : {l m : Logging} → LogStep l m → IsNumbered l → IsNumbered m
unfolding reserve_seq
LogStep-IsNumbered (reserve s held w) v = record {
  once = λ n. ground (arith, v.once n, v.below n);
  below = λ n h. ground (arith, v.below n);
}
LogStep-IsNumbered (push s front back seq thread line) v = record {
  once = λ n. omega (
    arith,
    v.once n,
    push-uses s seq thread n line,
    count-append n front back,
    count-append n front (seq ∷ back),
  );
  below = λ n h. omega (
    arith,
    v.below n (rw (push-next_seq s seq thread line) at h),
    push-uses s seq thread n line,
    count-append n front back,
    count-append n front (seq ∷ back),
  );
}

-- From a state where numbers are used once, and while fewer than 2^64 were taken, under every
-- interleaving of the two steps of `log`, by any number of threads, no number is given
-- to two lines, whether they are in the log or still to be pushed, and each is below `next_seq`.
pub LogSteps-IsNumbered : {l m : Logging} → LogSteps l m → IsNumbered l → IsNumbered m
LogSteps-IsNumbered start v = v
LogSteps-IsNumbered (step steps s) v = LogStep-IsNumbered s (LogSteps-IsNumbered steps v)

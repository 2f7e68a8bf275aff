-- ===== src/Shared/Log.antt =====
-- The bounds of the log, its numbering under any interleaving of threads, and the transcript.
use wa_wasm_oracle.Prelude.{
  ℕ, zero, suc, ◌+◌, ◌≤◌, ◌≡◌, List, [], ◌∷◌, ◌++◌, arith, length, take, All, leb, length-append,
  length-take, Bool-cases, inl, inr, true, false,
}
use mathlib.Core.List.{Perm}
use wa_wasm_oracle.Prelude.Sort.{insert_by, sort_by, sort_by-perm}
use wa_wasm_oracle.Prelude.Int.{ℤ}
use wa_wasm_oracle.Shared.{
  SharedHost, LogLine, max_trace, max_log_lines, max_log_line, truncated, cut_at, clip, log,
  reserve_seq, push_line, not_after, logs, record_call,
}

-- The longest line that the log holds: a cut line and the mark behind it.
abbrev pub longest_line : ℕ
longest_line = 2048 + 15

cut_at-le : (text : List ℕ) (at : ℕ) → cut_at text at ≤ at
unfolding cut_at
cut_at-le text zero = omega arith
cut_at-le text (suc at) = ground (arith, cut_at-le text at)

pub length-clip : (text : List ℕ) → length (clip text) ≤ longest_line
unfolding clip
length-clip text = elim (Bool-cases (leb (length text) max_log_line)) [
  | inl short ↦ ground arith
  | inr long ↦ ground (
    arith,
    length-append (take (cut_at text max_log_line) text) truncated,
    length-take (cut_at text max_log_line) text,
    cut_at-le text max_log_line,
  )
]

-- The trace and the log hold at most 8192 entries each, and no line is longer than 2063 bytes.
pub record IsBounded (s : SharedHost) : Type 0 where
  pub few_calls : length s.trace.calls ≤ max_trace
  pub few_lines : length s.trace.logs ≤ max_log_lines
  pub short_lines : All (λ (l : LogLine). length l.text ≤ longest_line) s.trace.logs

All-append {ℓ κ} :
    {A : Type ℓ} (P : A → Type κ) (xs ys : List A) → All P xs → All P ys → All P (xs ++ ys)
All-append P [] ys hx hy = hy
All-append P (x ∷ xs) ys hx hy = (hx.0, All-append P xs ys hx.1 hy)

module _ (seq thread : ℕ) (line : List ℕ) (s : SharedHost) where
  abbrev entry : LogLine
  entry = record { seq = seq; thread = thread; text = line }

  push_line-full :
      leb max_log_lines (length s.trace.logs) ≡ true
      → (push_line seq thread line s).trace.logs ≡ s.trace.logs
  unfolding push_line
  push_line-full full = rw full

  push_line-room :
      leb max_log_lines (length s.trace.logs) ≡ false
      → (push_line seq thread line s).trace.logs ≡ s.trace.logs ++ (entry ∷ [])
  unfolding push_line
  push_line-room room = rw room

  push_line-calls : (push_line seq thread line s).trace.calls ≡ s.trace.calls
  unfolding push_line
  push_line-calls = ground arith

  push_line-IsBounded :
      length line ≤ longest_line → IsBounded s → IsBounded (push_line seq thread line s)
  push_line-IsBounded short v = elim (Bool-cases (leb max_log_lines (length s.trace.logs))) [
    | inl full ↦ record {
      few_calls = rw push_line-calls v.few_calls;
      few_lines = rw (push_line-full full) v.few_lines;
      short_lines = rw (push_line-full full) v.short_lines;
    }
    | inr room ↦ record {
      few_calls = rw push_line-calls v.few_calls;
      few_lines =
          rw (push_line-room room) (ground (arith, length-append s.trace.logs (entry ∷ [])));
      short_lines = rw (push_line-room room) (
          All-append (λ (l : LogLine). length l.text ≤ longest_line) s.trace.logs (entry ∷ [])
            v.short_lines (short, tt));
    }
  ]

-- `log` keeps the trace and the log at 8192 entries at most and each line at 2063 bytes at most,
-- whatever the text and however full the log is.
pub log-IsBounded :
    (thread : ℕ) (text : List ℕ) (s : SharedHost) → IsBounded s → IsBounded (log thread text s)
unfolding log
log-IsBounded thread text s v =
    push_line-IsBounded s.next_seq thread (clip text) (reserve_seq s).0 (length-clip text)
      (record { few_calls = v.few_calls; few_lines = v.few_lines; short_lines = v.short_lines })

-- `record` keeps the bounds.
pub record_call-IsBounded :
    (module_name name : List ℕ) (args : List ℤ) (s : SharedHost)
    → IsBounded s
    → IsBounded (record_call module_name name args s)
unfolding record_call
record_call-IsBounded module_name name args s v = record {
  few_calls = ground (
    arith,
    v.few_calls,
    length-append s.trace.calls
        (record { module_name = module_name; name = name; args = args } ∷ []),
  );
  few_lines = v.few_lines;
  short_lines = v.short_lines;
}

-- Every number is at least `lo`, and none is below the one before it.
abbrev pub IsAscending : ℕ → List LogLine → Type 0
IsAscending lo [] = Unit
IsAscending lo (l ∷ ls) = (lo ≤ l.seq) × IsAscending l.seq ls

insert_by-IsAscending :
    (lo : ℕ) (l : LogLine) (ls : List LogLine)
    → lo ≤ l.seq
    → IsAscending lo ls
    → IsAscending lo (insert_by not_after l ls)
unfolding insert_by
insert_by-IsAscending lo l [] h a = (h, tt)
insert_by-IsAscending lo l (k ∷ ls) h a = elim (Bool-cases (leb l.seq k.seq)) [
  | inl before ↦ rw before (h, (ground arith, a.1))
  | inr after ↦ rw after (a.0, insert_by-IsAscending k.seq l ls (ground arith) a.1)
]

sort_by-IsAscending : (ls : List LogLine) → IsAscending 0 (sort_by not_after ls)
unfolding sort_by
sort_by-IsAscending [] = tt
sort_by-IsAscending (l ∷ ls) =
    insert_by-IsAscending 0 l (sort_by not_after ls) (omega arith) (sort_by-IsAscending ls)

-- The transcript holds the lines of the log and no others, each as often, in ascending order of
-- their numbers.
pub logs_lem : (s : SharedHost) → Perm (logs s) s.trace.logs × IsAscending 0 (logs s)
unfolding logs
logs_lem s = (sort_by-perm not_after s.trace.logs, sort_by-IsAscending s.trace.logs)

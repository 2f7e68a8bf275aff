-- ===== src/Abi/Render.antt =====
-- The listing of a body: `static_text`, `render`, `trim_quoted_text_to_length` and `field_after` of
-- crates/oracle-core/src/abi.rs. The `Debug` form of an operator is wasmparser's.
use wa_wasm_oracle.Prelude.{
  ℕ, suc, ◌-◌, ◌+◌, ◌*◌, ◌^◌, Bool, true, not, ◌&&◌, ◌||◌, List, [], ◌∷◌, ◌++◌, Option, none, some,
  map, ltb, leb, ◌==◌, if◌then◌else◌, length, take, drop,
}
use wa_wasm_oracle.Prelude.Int.{ℤ, pos, negsuc}
use wa_wasm_oracle.Prelude.Sort.{decimal}
use wa_wasm_oracle.Prelude.Text.{codes, take_while, is_printable, starts_with}
use wa_wasm_oracle.Prelude.Words.{signed32, signed64}
use wa_wasm_oracle.Abi.{
  Operator, local_get, local_set, local_tee, global_get, global_set, i32_const, i64_const, i32_load,
  i32_load8_u, i32_store, call, call_indirect, return_call, return_call_indirect, br, br_if,
  br_table, end_op, return_op,
}
use wa_wasm_oracle.Abi.Evidence.{join}

abbrev pub text_preview : ℕ
text_preview = 160

-- Below four characters a run is not taken for text.
abbrev pub min_run : ℕ
min_run = 4

abbrev pub holds : ℕ → ℕ × List ℕ → Bool
holds addr (base, bytes) = leb base addr && ltb (addr - base) (length bytes)

-- `data.iter().find(…)`
abbrev pub find_segment : List (ℕ × List ℕ) → ℕ → Option (ℕ × List ℕ)
find_segment [] addr = none
find_segment (s ∷ segments) addr = if holds addr s then some s else find_segment segments addr

-- The printable run at an offset, cut at the preview.
abbrev pub run_at : List ℕ → ℕ → List ℕ
run_at bytes start = take_while is_printable (take text_preview (drop start bytes))

abbrev pub text_in : ℕ → Option (ℕ × List ℕ) → Option (List ℕ)
text_in addr none = none
text_in addr (some (base, bytes)) =
    let text = run_at bytes (addr - base) in if leb min_run (length text) then some text else none

unfoldable pub static_text : List (ℕ × List ℕ) → ℕ → Option (List ℕ)
static_text segments addr = text_in addr (find_segment segments addr)

-- `{}` of an integer.
abbrev pub signed_decimal : ℤ → List ℕ
signed_decimal (pos n) = decimal n
signed_decimal (negsuc n) = codes "-" ++ decimal (suc n)

-- `split_once(key)`: what is behind the first `key`.
abbrev pub after_first : List ℕ → List ℕ → Option (List ℕ)
after_first key [] = if starts_with key [] then some [] else none
after_first key (c ∷ text) =
    let rest = after_first key text in
    if starts_with key (c ∷ text) then some (drop (length key) (c ∷ text)) else rest

-- `find(key)`: where the first `key` begins.
abbrev pub find_text : List ℕ → List ℕ → Option ℕ
find_text key [] = if starts_with key [] then some 0 else none
find_text key (c ∷ text) =
    let rest = find_text key text in
    if starts_with key (c ∷ text) then some 0 else elim rest [ some i ↦ some (suc i) | none ↦ none ]

abbrev pub is_digit : ℕ → Bool
is_digit c = leb 48 c && leb c 57

abbrev pub all_digits : List ℕ → Bool
all_digits [] = true
all_digits (c ∷ cs) = is_digit c && all_digits cs

abbrev pub value_of : ℕ → List ℕ → ℕ
value_of n [] = n
value_of n (c ∷ cs) = value_of (n * 10 + (c - 48)) cs

-- `parse::<u64>().ok()` of digits, which is also that of a `usize`.
abbrev pub parse_digits : List ℕ → Option ℕ
parse_digits [] = none
parse_digits (c ∷ cs) =
    if all_digits (c ∷ cs) && ltb (value_of 0 (c ∷ cs)) (2 ^ 64)
    then some (value_of 0 (c ∷ cs))
    else none

-- A sign is allowed in front.
abbrev pub parse_usize : List ℕ → Option ℕ
parse_usize [] = none
parse_usize (c ∷ cs) = if c == 43 then parse_digits cs else parse_digits (c ∷ cs)

unfoldable pub field_after : List ℕ → List ℕ → Option ℕ
field_after text key = elim (after_first key text) [
  | none ↦ none
  | some rest ↦ parse_digits (take_while is_digit rest)
]

abbrev pub is_space : ℕ → Bool
is_space c = c == 32 || leb 9 c && leb c 13

abbrev pub skip_spaces : List ℕ → List ℕ
skip_spaces [] = []
skip_spaces (c ∷ text) = let rest = skip_spaces text in if is_space c then rest else c ∷ text

abbrev pub or_mark : List ℕ → List ℕ
or_mark [] = codes "?"
or_mark (c ∷ word) = c ∷ word

-- `split_whitespace().next().unwrap_or("?")`
abbrev pub first_word : List ℕ → List ℕ
first_word text = or_mark (take_while (λ c. not (is_space c)) (skip_spaces text))

-- `trim_end_matches('{')`
abbrev pub trim_braces : List ℕ → List ℕ
trim_braces [] = []
trim_braces (c ∷ text) = trimmed c (trim_braces text)
  where
    trimmed : ℕ → List ℕ → List ℕ
    trimmed c [] = if c == 123 then [] else c ∷ []
    trimmed c (d ∷ rest) = c ∷ d ∷ rest

abbrev pub lower : ℕ → ℕ
lower c = if leb 65 c && leb c 90 then c + 32 else c

abbrev pub offset_part : Option ℕ → List ℕ
offset_part (some offset) = codes " offset=" ++ decimal offset
offset_part none = []

-- The last arm of `render`, on the `Debug` text of the operator.
abbrev pub render_debug : List ℕ → List ℕ
render_debug text =
    map lower (trim_braces (first_word text)) ++ offset_part (field_after text (codes "offset: "))

abbrev pub target_label : Option ℕ → List ℕ
target_label (some depth) = decimal depth
target_label none = codes "?"

module _ (debug : Operator → List ℕ) where
  unfoldable pub render : Operator → List ℕ
  unfolding field_after
  render (local_get i) = codes "local.get " ++ decimal i
  render (local_set i) = codes "local.set " ++ decimal i
  render (local_tee i) = codes "local.tee " ++ decimal i
  render (global_get i) = codes "global.get " ++ decimal i
  render (global_set i) = codes "global.set " ++ decimal i
  render (i32_const value) = codes "i32.const " ++ signed_decimal (signed32 value)
  render (i64_const value) = codes "i64.const " ++ signed_decimal (signed64 value)
  render (i32_load offset) = codes "i32.load offset=" ++ decimal offset
  render (i32_load8_u offset) = codes "i32.load8_u offset=" ++ decimal offset
  render (i32_store offset) = codes "i32.store offset=" ++ decimal offset
  render (call i) = codes "call " ++ decimal i
  render (call_indirect ty) = codes "call_indirect type=" ++ decimal ty
  render (return_call i) = codes "return_call " ++ decimal i
  render (return_call_indirect ty) = codes "return_call_indirect type=" ++ decimal ty
  render (br depth) = codes "br " ++ decimal depth
  render (br_if depth) = codes "br_if " ++ decimal depth
  render (br_table targets default_target) =
      codes "br_table ["
      ++ (join (codes " ")
            (map target_label targets ++ ((codes "default " ++ decimal default_target) ∷ []))
          ++ codes "]")
  render end_op = codes "end"
  render return_op = codes "return"
  render op = render_debug (debug op)

-- `{:?}` of printable text: a quote and a backslash are escaped.
abbrev pub escaped : List ℕ → List ℕ
escaped [] = []
escaped (c ∷ text) = if c == 34 || c == 92 then 92 ∷ c ∷ escaped text else c ∷ escaped text

abbrev pub marker : List ℕ
marker = codes "  ; \""

abbrev pub quoted_part : Option (List ℕ) → List ℕ
quoted_part (some text) = marker ++ (escaped text ++ codes "\"")
quoted_part none = []

-- A constant that addresses text is followed by the text.
abbrev pub annotation : List (ℕ × List ℕ) → Operator → List ℕ
annotation segments (i32_const value) = quoted_part (static_text segments value)
annotation segments _ = []

-- `strip_prefix(prefix)`
abbrev pub strip_prefix : List ℕ → List ℕ → Option (List ℕ)
strip_prefix prefix text =
    if starts_with prefix text then some (drop (length prefix) text) else none

abbrev pub length_of : List ℕ → Option ℕ
length_of next = elim (strip_prefix (codes "i32.const ") next) [
  | some digits ↦ parse_usize digits
  | none ↦ none
]

abbrev pub ellipsis : List ℕ
ellipsis = 0xe2 ∷ 0x80 ∷ 0xa6 ∷ []

abbrev pub cut_text : List ℕ → ℕ → ℕ → List ℕ
cut_text quoted start len =
    let text = take (length quoted - 1 - (start + 5)) (drop (start + 5) quoted) in
    if len == 0 || leb (length text) len
    then quoted
    else take start quoted ++ (marker ++ (take len text ++ (ellipsis ++ codes "\"")))

abbrev pub trim_line : List ℕ → List ℕ → List ℕ
trim_line quoted next = elim (length_of next) [
  | none ↦ quoted
  | some len ↦ elim (find_text marker quoted) [
    | none ↦ quoted
    | some start ↦ cut_text quoted start len
  ]
]

-- `trim_quoted_text_to_length`, on the last two lines of the listing.
unfoldable pub trim_quoted_text_to_length : List (List ℕ) → List (List ℕ)
trim_quoted_text_to_length [] = []
trim_quoted_text_to_length (line ∷ []) = line ∷ []
trim_quoted_text_to_length (quoted ∷ next ∷ []) = trim_line quoted next ∷ next ∷ []
trim_quoted_text_to_length (line ∷ second ∷ third ∷ lines) =
    line ∷ trim_quoted_text_to_length (second ∷ third ∷ lines)

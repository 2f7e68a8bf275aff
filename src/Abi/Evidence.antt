-- ===== src/Abi/Evidence.antt =====
-- What abi.rs collects about a parameter and how it prints it: `Role`, `ParamEvidence` and
-- `FunctionAbi` of crates/oracle-core/src/abi.rs.
use wa_wasm_oracle.Prelude.{
  ℕ, zero, suc, ◌-◌, Bool, true, false, ◌&&◌, ◌||◌, List, [], ◌∷◌, ◌++◌, Option, none, some, max,
  ltb, leb, ◌==◌, if◌then◌else◌, length, replicate,
}
use wa_wasm_oracle.Prelude.Sort.{decimal}
use wa_wasm_oracle.Prelude.Text.{codes, contains_text}

pub data Role : Type 0 where
  pointer : ℕ → Bool → Role
  length_role handle scalar unknown : Role

pub record ParamEvidence : Type 0 where
  pub index : ℕ
  pub load_width : Option ℕ
  pub store_width : Option ℕ
  pub comparisons : ℕ
  pub forwarded : ℕ
  pub arithmetic : ℕ
  pub stored_into : ℕ

abbrev pub no_evidence : ℕ → ParamEvidence
no_evidence i = record {
  index = i;
  load_width = none;
  store_width = none;
  comparisons = 0;
  forwarded = 0;
  arithmetic = 0;
  stored_into = 0;
}

-- `max` of two `Option<u32>`: `None` is the least.
abbrev pub max_width : Option ℕ → Option ℕ → Option ℕ
max_width none w = w
max_width (some v) none = some v
max_width (some v) (some w) = some (max v w)

abbrev pub is_some {ℓ} : {A : Type ℓ} → Option A → Bool
is_some (some a) = true
is_some none = false

unfoldable pub role : ParamEvidence → Role
role e = elim (max_width e.load_width e.store_width) [
  | some width ↦ pointer width (is_some e.store_width)
  | none ↦
      if ltb 0 e.comparisons
      then length_role
      else if ltb 0 e.forwarded || ltb 0 e.stored_into
      then handle
      else if ltb 0 e.arithmetic
      then scalar
      else unknown
]

-- `Display for Role`
abbrev pub role_text : Role → List ℕ
role_text (pointer width writes) =
    codes "pointer ("
    ++ ((if writes then codes "read/write" else codes "read")
        ++ (codes ", " ++ (decimal width ++ codes "-byte access)")))
role_text length_role = codes "length or count"
role_text handle = codes "handle (passed through)"
role_text scalar = codes "scalar"
role_text unknown = codes "unknown"

-- `parts.join(separator)`
abbrev pub join : List ℕ → List (List ℕ) → List ℕ
join separator [] = []
join separator (p ∷ []) = p
join separator (p ∷ q ∷ ps) = p ++ (separator ++ join separator (q ∷ ps))

abbrev pub width_part : List ℕ → Option ℕ → List (List ℕ)
width_part verb (some width) = (verb ++ (decimal width ++ codes "B")) ∷ []
width_part verb none = []

abbrev pub count_part : List ℕ → ℕ → List (List ℕ)
count_part what zero = []
count_part what (suc n) = (what ++ decimal (suc n)) ∷ []

abbrev pub parts : ParamEvidence → List (List ℕ)
parts e =
    width_part (codes "loaded ") e.load_width
    ++ (width_part (codes "stored ") e.store_width
        ++ (count_part (codes "compared x") e.comparisons
            ++ (count_part (codes "forwarded x") e.forwarded
                ++ (count_part (codes "stored as a value x") e.stored_into
                    ++ count_part (codes "arithmetic x") e.arithmetic))))

abbrev pub or_unused : List (List ℕ) → List ℕ
or_unused [] = codes "unused in the scanned body"
or_unused (p ∷ ps) = join (codes ", ") (p ∷ ps)

unfoldable pub evidence : ParamEvidence → List ℕ
evidence e = or_unused (parts e)

pub record FunctionAbi : Type 0 where
  pub name : List ℕ
  pub index : ℕ
  pub params : List ParamEvidence
  pub scanned : ℕ
  pub table_slots : List ℕ
  pub body : List (List ℕ)

-- `{:<width}`
abbrev pub pad : ℕ → List ℕ → List ℕ
pad width text = text ++ replicate (width - length text) 0x20

-- `{:?}` of a list of numbers.
abbrev pub debug_list : List ℕ → List ℕ
debug_list ns = codes "[" ++ (join (codes ", ") (digits ns) ++ codes "]")
  where
    digits : List ℕ → List (List ℕ)
    digits [] = []
    digits (n ∷ rest) = decimal n ∷ digits rest

abbrev pub newline : List ℕ
newline = 10 ∷ []

abbrev pub param_line : ParamEvidence → List ℕ
param_line e =
    codes "  arg"
    ++ (pad 2 (decimal e.index)
        ++ (codes " " ++ (pad 34 (role_text (role e)) ++ (codes " " ++ (evidence e ++ newline)))))

abbrev pub param_lines : List ParamEvidence → List ℕ
param_lines [] = []
param_lines (e ∷ es) = param_line e ++ param_lines es

abbrev pub slots_line : List ℕ → List ℕ
slots_line [] = []
slots_line (s ∷ ss) =
    codes "  in function table at slot"
    ++ ((if length ss == 0 then [] else codes "s")
        ++ (codes " " ++ (debug_list (s ∷ ss) ++ newline)))

abbrev pub body_lines : List (List ℕ) → List ℕ
body_lines [] = []
body_lines (line ∷ lines) = codes "    " ++ (line ++ (newline ++ body_lines lines))

abbrev pub body_head : ℕ → ℕ → List ℕ
body_head shown scanned =
    if ltb shown scanned
    then codes "  body (first "
      ++ (decimal shown
          ++ (codes " of " ++ (decimal scanned ++ (codes "; raise --body for more):" ++ newline))))
    else codes "  body:" ++ newline

abbrev pub body_text : ℕ → List (List ℕ) → List ℕ
body_text scanned [] = []
body_text scanned (line ∷ lines) =
    body_head (suc (length lines)) scanned ++ body_lines (line ∷ lines)

unfoldable pub describe : FunctionAbi → List ℕ
describe f =
    f.name
    ++ (codes " (function #"
        ++ (decimal f.index
            ++ (codes ")"
                ++ (newline
                    ++ (param_lines f.params
                        ++ (slots_line f.table_slots
                            ++ (codes "  ("
                                ++ (decimal f.scanned
                                    ++ (codes " instructions scanned)"
                                        ++ (newline ++ body_text f.scanned f.body))))))))))

abbrev pub first_is_loaded : List ParamEvidence → Bool
first_is_loaded [] = false
first_is_loaded (e ∷ es) = is_some e.load_width

abbrev pub any_calls : List (List ℕ) → Bool
any_calls [] = false
any_calls (line ∷ lines) =
    contains_text (codes "call_indirect") line
    || contains_text (codes "call ") line
    || any_calls lines

unfoldable pub is_trampoline : FunctionAbi → Bool
is_trampoline f = leb f.scanned 24 && (first_is_loaded f.params && any_calls f.body)

-- ===== src/Prelude/Text.antt =====
-- Text as bytes: literals, the string functions of Rust's standard library that the sources call,
-- and `String::from_utf8_lossy`.
use Prim.Native.Char.{code}
use Prim.Native.String.{String}
use wa_wasm_oracle.Prelude.{
  ℕ, suc, ◌≡◌, refl, Bool, true, false, ◌&&◌, ◌||◌, List, [], ◌∷◌, ◌++◌, Option, none, some, arith,
  ltb, leb, ◌==◌, if◌then◌else◌, ◌<◌, ◌-◌, All,
}
use wa_wasm_oracle.Prelude.Map.{same, bytes_ord}

-- The bytes of an ASCII literal.
abbrev pub codes : String → List ℕ
codes String.[] = []
codes (String.◌∷◌ c s) = code c ∷ codes s

-- `==` of two byte strings.
abbrev pub bytes_eq : List ℕ → List ℕ → Bool
bytes_eq a b = same a b

-- `iter().position(p)`
unfoldable pub position : (ℕ → Bool) → List ℕ → Option ℕ
position p [] = none
position p (b ∷ bs) =
    if p b then some 0 else elim (position p bs) [ none ↦ none | some i ↦ some (suc i) ]

-- `take_while(p)`
abbrev pub take_while : (ℕ → Bool) → List ℕ → List ℕ
take_while p [] = []
take_while p (b ∷ bs) = let rest = take_while p bs in if p b then b ∷ rest else []

-- `is_ascii_graphic() || b' '`, which is also the range `0x20..=0x7e`.
abbrev pub is_printable : ℕ → Bool
is_printable b = leb 0x20 b && leb b 0x7e

-- `starts_with`
abbrev pub starts_with : List ℕ → List ℕ → Bool
starts_with [] text = true
starts_with (p ∷ ps) [] = false
starts_with (p ∷ ps) (b ∷ bs) = (p == b) && starts_with ps bs

-- `text.contains(needle)`
abbrev pub contains_text : List ℕ → List ℕ → Bool
contains_text needle [] = starts_with needle []
contains_text needle (b ∷ bs) = starts_with needle (b ∷ bs) || contains_text needle bs

-- What a byte may follow inside a multi-byte sequence: how many continuation bytes are still due,
-- and the range of the next one (the second byte of E0, ED, F0 and F4 is restricted).
pub data Due : Type 0 where
  none_due : Due
  due : ℕ → ℕ → ℕ → Due

-- The state after a first byte, or `none` if no sequence begins with it.
abbrev pub first_byte : ℕ → Option Due
first_byte b =
    if ltb b 0x80
    then some none_due
    else if ltb b 0xc2
    then none
    else if ltb b 0xe0
    then some (due 1 0x80 0xbf)
    else if b == 0xe0
    then some (due 2 0xa0 0xbf)
    else if b == 0xed
    then some (due 2 0x80 0x9f)
    else if ltb b 0xf0
    then some (due 2 0x80 0xbf)
    else if b == 0xf0
    then some (due 3 0x90 0xbf)
    else if ltb b 0xf4
    then some (due 3 0x80 0xbf)
    else if b == 0xf4
    then some (due 3 0x80 0x8f)
    else none

-- U+FFFD in UTF-8.
abbrev pub replacement : List ℕ
replacement = 0xef ∷ 0xbf ∷ 0xbd ∷ []

-- A byte with no sequence open: what is written, and the sequence that it opens.
abbrev pub begin_byte : ℕ → List ℕ × Due × List ℕ
begin_byte b = elim (first_byte b) [
  | none ↦ (replacement, none_due, [])
  | some none_due ↦ (b ∷ [], none_due, [])
  | some (due k lo hi) ↦ ([], due k lo hi, b ∷ [])
]

-- `seen` is the valid prefix of a sequence that is not finished. A byte that cannot continue it
-- ends it as one replacement character, and begins anew.
abbrev pub next_byte : Due → List ℕ → ℕ → List ℕ × Due × List ℕ
next_byte none_due seen b = begin_byte b
next_byte (due k lo hi) seen b =
    if leb lo b && leb b hi
    then (if k == 1
        then (seen ++ (b ∷ []), none_due, [])
        else ([], due (k - 1) 0x80 0xbf, seen ++ (b ∷ [])))
    else (let (out, st, seen') = begin_byte b in (replacement ++ out, st, seen'))

unfoldable pub lossy : Due → List ℕ → List ℕ → List ℕ
lossy none_due seen [] = []
lossy (due k lo hi) seen [] = replacement
lossy st seen (b ∷ bs) = let (out, st', seen') = next_byte st seen b in out ++ lossy st' seen' bs

unfoldable pub from_utf8_lossy : List ℕ → List ℕ
unfolding lossy
from_utf8_lossy bs = lossy none_due [] bs

abbrev pub IsAscii : List ℕ → Type 0
IsAscii = All (λ b. b < 0x80)

lossy-ascii : (bs : List ℕ) → IsAscii bs → lossy none_due [] bs ≡ bs
unfolding lossy
lossy-ascii [] h = refl
lossy-ascii (b ∷ bs) h = ground (arith, lossy-ascii bs)

-- ASCII text is kept as it is.
pub from_utf8_lossy-ascii : (bs : List ℕ) → IsAscii bs → from_utf8_lossy bs ≡ bs
unfolding from_utf8_lossy
from_utf8_lossy-ascii bs h = lossy-ascii bs h

-- A truncated sequence and a stray byte give one replacement character each.
lossy_broken :
    from_utf8_lossy (0x61 ∷ 0xe2 ∷ 0x82 ∷ 0x62 ∷ 0xff ∷ 0xc3 ∷ 0xa9 ∷ [])
    ≡ (0x61 ∷ replacement) ++ ((0x62 ∷ replacement) ++ (0xc3 ∷ 0xa9 ∷ []))
unfolding from_utf8_lossy
lossy_broken = refl

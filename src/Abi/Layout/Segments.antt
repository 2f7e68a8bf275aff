-- ===== src/Abi/Layout/Segments.antt =====
-- The element segments of a module, and what placing them leaves in a slot of the table.
use wa_wasm_oracle.Prelude.{
  ℕ, suc, ◌+◌, ◌-◌, ◌^◌, ◌≡◌, ◌≤◌, ◌<◌, ◌==◌, refl, sym, ap, ◌∙◌, arith, List, [], ◌∷◌, ◌++◌,
  Option, none, some, ◌&&◌, leb, ltb, if◌then◌else◌, length, get_elem?, All,
}
use wa_wasm_oracle.Prelude.Map.{nat_ord, lookup, insert, lookup-insert}
use wa_wasm_oracle.Prelude.Result.{Result, ok, err, ◌>>=◌}
use wa_wasm_oracle.Prelude.Text.{codes}
use wa_wasm_oracle.Prelude.Words.{add32}
use wa_wasm_oracle.Abi.{
  Reader, ElementKind, active_element, other_element, ElementItems, functions, expressions, Element,
  Payload, element_section, AbiError, for_each,
}
use wa_wasm_oracle.Abi.Layout.{
  Reading, const_offset, place_functions, place_at, element_as, read_element,
}

-- The active element segments of a module: where each begins, and its functions.
abbrev pub decodable {ℓ} : {A : Type ℓ} → Reader A → List A
decodable [] = []
decodable (some a ∷ items) = a ∷ decodable items
decodable (none ∷ items) = decodable items

abbrev pub segment_at : Option ℕ → ElementItems → List (ℕ × List ℕ)
segment_at (some base) (functions items) = (base, decodable items) ∷ []
segment_at _ _ = []

abbrev pub segment_of : ElementKind → ElementItems → List (ℕ × List ℕ)
segment_of (active_element offset) items = segment_at (const_offset offset) items
segment_of other_element items = []

abbrev pub segments_of_section : Reader Element → List (ℕ × List ℕ)
segments_of_section [] = []
segments_of_section (some e ∷ elements) = segment_of e.kind e.items ++ segments_of_section elements
segments_of_section (none ∷ elements) = segments_of_section elements

abbrev pub segments_of_payload : Payload → List (ℕ × List ℕ)
segments_of_payload (element_section elements) = segments_of_section elements
segments_of_payload _ = []

abbrev pub element_segments : Reader Payload → List (ℕ × List ℕ)
element_segments [] = []
element_segments (some p ∷ payloads) = segments_of_payload p ++ element_segments payloads
element_segments (none ∷ payloads) = element_segments payloads

-- What is in a slot once the segments are in place, one after another.
abbrev pub covered : ℕ → List ℕ → ℕ → Option ℕ → Option ℕ
covered base fs slot before =
    if leb base slot && ltb (slot - base) (length fs) then get_elem? fs (slot - base) else before

abbrev pub in_slot : List (ℕ × List ℕ) → ℕ → Option ℕ → Option ℕ
in_slot [] slot before = before
in_slot ((base, fs) ∷ segments) slot before = in_slot segments slot (covered base fs slot before)

-- No segment reaches past the last 32-bit slot.
abbrev pub Fits : List (ℕ × List ℕ) → Type 0
Fits = All (λ s. s.0 + length s.1 ≤ 2 ^ 32)

pub in_slot-append :
    (a b : List (ℕ × List ℕ)) (slot : ℕ) (before : Option ℕ)
    → in_slot (a ++ b) slot before ≡ in_slot b slot (in_slot a slot before)
in_slot-append [] b slot before = refl
in_slot-append ((base, fs) ∷ a) b slot before =
    in_slot-append a b slot (covered base fs slot before)

pub Fits-append : (a b : List (ℕ × List ℕ)) → Fits (a ++ b) → Fits a × Fits b
Fits-append [] b h = (tt, h)
Fits-append (s ∷ a) b (p, h) = let (q, r) = Fits-append a b h in ((p, q), r)

covered-cons :
    (b f : ℕ) (fs : List ℕ) (slot : ℕ) (before : Option ℕ)
    → covered (suc b) fs slot (if b == slot then some f else before)
      ≡ covered b (f ∷ fs) slot before
covered-cons b f fs slot before = ground (arith, ahead, here)
  where
    ahead : b < slot → get_elem? (f ∷ fs) (slot - b) ≡ get_elem? fs (slot - suc b)
    ahead h = let e : slot - b ≡ suc (slot - suc b) = omega arith in ap (get_elem? (f ∷ fs)) e

    here : b ≡ slot → get_elem? (f ∷ fs) (slot - b) ≡ some f
    here h = let e : slot - b ≡ 0 = omega arith in ap (get_elem? (f ∷ fs)) e

module _ (slot : ℕ) where
  lookup-place_functions :
      (base n : ℕ) (items : Reader ℕ) (t t' : List (ℕ × ℕ))
      → base + n + length (decodable items) ≤ 2 ^ 32
      → place_functions base n items t ≡ ok t'
      → lookup slot t' ≡ covered (base + n) (decodable items) slot (lookup slot t)
  lookup-place_functions base n [] t t' fits e = ground arith
  lookup-place_functions base n (none ∷ items) t t' fits e = cc
  lookup-place_functions base n (some f ∷ items) t t' fits e =
      let later =
        lookup-place_functions base (suc n) items (insert (add32 base n) f t) t' (omega arith) e in
      later ∙ first
    where
      first :
          covered (base + suc n) (decodable items) slot (lookup slot (insert (add32 base n) f t))
          ≡ covered (base + n) (f ∷ decodable items) slot (lookup slot t)
      first =
          let e : base + suc n ≡ suc (base + n) = omega arith in
          let w : add32 base n ≡ base + n = omega arith in
          ap (λ (k : ℕ). covered k (decodable items) slot (lookup slot (insert (add32 base n) f t)))
            e
          ∙ ap (covered (suc (base + n)) (decodable items) slot)
              (lookup-insert (add32 base n) slot f t)
          ∙ ap
              (λ (k : ℕ).
                covered (suc (base + n)) (decodable items) slot
                  (if k == slot then some f else lookup slot t))
              w
          ∙ covered-cons (base + n) f (decodable items) slot (lookup slot t)

  unfoldable pub Places : List (ℕ × List ℕ) → Reading → Reading → Type 0
  Places segments r r' =
      Fits segments
      → lookup slot r'.layout.table ≡ in_slot segments slot (lookup slot r.layout.table)

  place_items-Places :
      (base : ℕ) (items : Reader ℕ) (r r' : Reading) (q : Result AbiError (List (ℕ × ℕ)))
      → place_functions base 0 items r.layout.table ≡ q
      → (q >>= λ t. ok (record r { layout = record r.layout { table = t } })) ≡ ok r'
      → Places ((base, decodable items) ∷ []) r r'
  unfolding Places
  place_items-Places base items r r' (ok t) e h fits =
      let base_0 : base + 0 ≡ base = omega arith in
      let placed =
        lookup-place_functions base 0 items r.layout.table t (omega arith) e
        ∙ ap (λ (k : ℕ). covered k (decodable items) slot (lookup slot r.layout.table)) base_0 in
      ground (arith, placed)
  place_items-Places base items r r' (err x) e h fits = cc

  element_as-Places :
      (kind : ElementKind) (items : ElementItems) (r r' : Reading)
      → element_as kind items r ≡ ok r'
      → Places (segment_of kind items) r r'
  unfolding Places
  element_as-Places (active_element offset) items r r' h fits =
      at (const_offset offset) items h fits
    where
      at :
          (base : Option ℕ) (items : ElementItems)
          → place_at base items r ≡ ok r'
          → Places (segment_at base items) r r'
      at (some base) (functions items) h fits =
          place_items-Places base items r r' (place_functions base 0 items r.layout.table) refl h
            fits
      at (some base) expressions h fits = ground arith
      at none (functions items) h fits = ground arith
      at none expressions h fits = ground arith
  element_as-Places other_element items r r' h fits = ground arith

  pub section-Places :
      (elements : Reader Element) (r r' : Reading)
      → for_each (codes "element segment") read_element elements r ≡ ok r'
      → Places (segments_of_section elements) r r'
  unfolding Places
  section-Places [] r r' h fits = ground arith
  section-Places (none ∷ elements) r r' h fits = cc
  section-Places (some e ∷ elements) r r' h fits =
      from (λ m k. section-Places elements m r' k) (read_element e r) refl h
    where
      from :
          ((m : Reading)
            → for_each (codes "element segment") read_element elements m ≡ ok r'
            → Places (segments_of_section elements) m r')
          → (q : Result AbiError Reading) → read_element e r ≡ q
          → (q >>= λ m. for_each (codes "element segment") read_element elements m) ≡ ok r'
          → lookup slot r'.layout.table
            ≡ in_slot
                (segment_of e.kind e.items ++ segments_of_section elements)
                slot
                (lookup slot r.layout.table)
      from others (ok m) k g =
          let (now, later) =
            Fits-append (segment_of e.kind e.items) (segments_of_section elements) fits in
          others m g later
          ∙ ap (in_slot (segments_of_section elements) slot)
              (element_as-Places e.kind e.items r m k now)
          ∙ sym (in_slot-append (segment_of e.kind e.items) (segments_of_section elements) slot _)
      from others (err x) k g = cc

-- ===== src/Embind/Settle.antt =====
-- What `settle` does to registrations that came before their class.
use wa_wasm_oracle.Prelude.{
  ℕ, ◌≡◌, refl, sym, subst, true, false, ◌∙◌, ap, List, [], ◌∷◌, ◌++◌, Option, none, some, arith,
  ◌==◌, if◌then◌else◌, Bool-cases, inl, inr, Option-cases,
}
use mathlib.Core.List.{Perm, append-nil, append_assoc}
use wa_wasm_oracle.Prelude.Map as Map
use wa_wasm_oracle.Prelude.Map.{nat_ord, lookup-insert}
use wa_wasm_oracle.Prelude.Sort.{sort_by, sort_by-perm, IsSorted, sort_by-IsSorted}
use wa_wasm_oracle.Prelude.Tally.{bytes_cmp_turned}
use wa_wasm_oracle.Embind.{
  EmbindMethod, EmbindConstructor, EmbindClass, EmbindRegistry, class_or, attach_method,
  attach_methods, attach_constructor, attach_constructors, settle_class, settle_classes, method_le,
  settle,
}

-- The methods of a class in a class table, none if it has no such class.
abbrev pub methods_at : ℕ → List (ℕ × EmbindClass) → List EmbindMethod
methods_at c classes = elim (Map.lookup c classes) [ some k ↦ k.methods | none ↦ [] ]

abbrev pub constructors_at : ℕ → List (ℕ × EmbindClass) → List EmbindConstructor
constructors_at c classes = elim (Map.lookup c classes) [ some k ↦ k.constructors | none ↦ [] ]

-- The waiting methods of one class, in the order they arrived.
abbrev pub methods_for : ℕ → List EmbindMethod → List EmbindMethod
methods_for c [] = []
methods_for c (m ∷ ms) = if m.class_type == c then m ∷ methods_for c ms else methods_for c ms

abbrev pub constructors_for : ℕ → List EmbindConstructor → List EmbindConstructor
constructors_for c [] = []
constructors_for c (k ∷ ks) =
    if k.class_type == c then k ∷ constructors_for c ks else constructors_for c ks

abbrev with_method : EmbindMethod → Option EmbindClass → EmbindClass
with_method m o = let c = class_or m.class_type o in record c { methods = c.methods ++ (m ∷ []) }

attach_method-at :
    (c : ℕ) (m : EmbindMethod) (classes : List (ℕ × EmbindClass))
    → methods_at c (attach_method m classes)
      ≡ (if m.class_type == c then methods_at c classes ++ (m ∷ []) else methods_at c classes)
unfolding attach_method
attach_method-at c m classes = ground (
  arith,
  lookup-insert m.class_type c (with_method m (Map.lookup m.class_type classes)) classes,
  Map.same_iff m.class_type c,
  Option-cases (Map.lookup m.class_type classes),
)

attach_method-constructors :
    (c : ℕ) (m : EmbindMethod) (classes : List (ℕ × EmbindClass))
    → constructors_at c (attach_method m classes) ≡ constructors_at c classes
unfolding attach_method
attach_method-constructors c m classes = ground (
  arith,
  lookup-insert m.class_type c (with_method m (Map.lookup m.class_type classes)) classes,
  Map.same_iff m.class_type c,
  Option-cases (Map.lookup m.class_type classes),
)

abbrev with_constructor : EmbindConstructor → Option EmbindClass → EmbindClass
with_constructor k o =
    let c = class_or k.class_type o in record c { constructors = c.constructors ++ (k ∷ []) }

attach_constructor-at :
    (c : ℕ) (k : EmbindConstructor) (classes : List (ℕ × EmbindClass))
    → constructors_at c (attach_constructor k classes) ≡ (
        if k.class_type == c
        then constructors_at c classes ++ (k ∷ [])
        else constructors_at c classes)
unfolding attach_constructor
attach_constructor-at c k classes = ground (
  arith,
  lookup-insert k.class_type c (with_constructor k (Map.lookup k.class_type classes)) classes,
  Map.same_iff k.class_type c,
  Option-cases (Map.lookup k.class_type classes),
)

attach_constructor-methods :
    (c : ℕ) (k : EmbindConstructor) (classes : List (ℕ × EmbindClass))
    → methods_at c (attach_constructor k classes) ≡ methods_at c classes
unfolding attach_constructor
attach_constructor-methods c k classes = ground (
  arith,
  lookup-insert k.class_type c (with_constructor k (Map.lookup k.class_type classes)) classes,
  Map.same_iff k.class_type c,
  Option-cases (Map.lookup k.class_type classes),
)

attach_methods-at :
    (c : ℕ) (ms : List EmbindMethod) (classes : List (ℕ × EmbindClass))
    → methods_at c (attach_methods ms classes) ≡ methods_at c classes ++ methods_for c ms
unfolding attach_methods
attach_methods-at c [] classes = sym (append-nil (methods_at c classes))
attach_methods-at c (m ∷ ms) classes = ground (
  arith,
  attach_methods-at c ms (attach_method m classes),
  attach_method-at c m classes,
  append_assoc (methods_at c classes) (m ∷ []) (methods_for c ms),
)

attach_methods-constructors :
    (c : ℕ) (ms : List EmbindMethod) (classes : List (ℕ × EmbindClass))
    → constructors_at c (attach_methods ms classes) ≡ constructors_at c classes
unfolding attach_methods
attach_methods-constructors c [] classes = refl
attach_methods-constructors c (m ∷ ms) classes =
    attach_methods-constructors c ms (attach_method m classes)
    ∙ attach_method-constructors c m classes

attach_constructors-at :
    (c : ℕ) (ks : List EmbindConstructor) (classes : List (ℕ × EmbindClass))
    → constructors_at c (attach_constructors ks classes)
      ≡ constructors_at c classes ++ constructors_for c ks
unfolding attach_constructors
attach_constructors-at c [] classes = sym (append-nil (constructors_at c classes))
attach_constructors-at c (k ∷ ks) classes = ground (
  arith,
  attach_constructors-at c ks (attach_constructor k classes),
  attach_constructor-at c k classes,
  append_assoc (constructors_at c classes) (k ∷ []) (constructors_for c ks),
)

attach_constructors-methods :
    (c : ℕ) (ks : List EmbindConstructor) (classes : List (ℕ × EmbindClass))
    → methods_at c (attach_constructors ks classes) ≡ methods_at c classes
unfolding attach_constructors
attach_constructors-methods c [] classes = refl
attach_constructors-methods c (k ∷ ks) classes =
    attach_constructors-methods c ks (attach_constructor k classes)
    ∙ attach_constructor-methods c k classes

settle_classes-lookup :
    (c : ℕ) (types : List (ℕ × List ℕ)) (classes : List (ℕ × EmbindClass))
    → Map.lookup c (settle_classes types classes)
      ≡ elim (Map.lookup c classes) [ some k ↦ some (settle_class types k) | none ↦ none ]
unfolding Map.lookup
settle_classes-lookup c types [] = refl
settle_classes-lookup c types ((id, k) ∷ cs) = elim (Bool-cases (Map.same id c)) [
  | inl here ↦ rw here
  | inr there ↦ rw there (settle_classes-lookup c types cs)
]

settle_classes-methods :
    (c : ℕ) (types : List (ℕ × List ℕ)) (classes : List (ℕ × EmbindClass))
    → methods_at c (settle_classes types classes) ≡ sort_by method_le (methods_at c classes)
settle_classes-methods c types classes = elim (Option-cases (Map.lookup c classes)) [
  | inl e ↦ rw (methods_at, settle_classes-lookup c types classes, e) (unfold sort_by in refl)
  | inr (k, e) ↦ rw (methods_at, settle_classes-lookup c types classes, e)
]

settle_classes-constructors :
    (c : ℕ) (types : List (ℕ × List ℕ)) (classes : List (ℕ × EmbindClass))
    → constructors_at c (settle_classes types classes) ≡ constructors_at c classes
settle_classes-constructors c types classes = elim (Option-cases (Map.lookup c classes)) [
  | inl e ↦ rw (constructors_at, settle_classes-lookup c types classes, e)
  | inr (k, e) ↦ rw (constructors_at, settle_classes-lookup c types classes, e)
]

method_le_total : (a b : EmbindMethod) → method_le a b ≡ false → method_le b a ≡ true
method_le_total a b h = ground (arith, bytes_cmp_turned a.name b.name)

-- After `settle` nothing waits for its class any more: whether or not the class was registered, it
-- has the methods that it had and those that waited for it, each as often and in the order of their
-- names, and its constructors followed by those that waited for it, in the order they arrived.
pub settle_lem :
    (c : ℕ) (r : EmbindRegistry)
    → Perm
        (methods_at c (settle r).classes)
        (methods_at c r.classes ++ methods_for c r.orphan_methods)
      × IsSorted method_le (methods_at c (settle r).classes)
      × (constructors_at c (settle r).classes
          ≡ constructors_at c r.classes ++ constructors_for c r.orphan_constructors)
      × ((settle r).orphan_methods ≡ [])
      × ((settle r).orphan_constructors ≡ [])
unfolding settle
settle_lem c r = (
  rw methods (sort_by-perm method_le (methods_at c r.classes ++ methods_for c r.orphan_methods)),
  subst (IsSorted method_le) (sym methods) (
      sort_by-IsSorted method_le method_le_total
        (methods_at c r.classes ++ methods_for c r.orphan_methods)),
  settle_classes-constructors c r.types cs
      ∙ attach_constructors-at c r.orphan_constructors ms
      ∙ ap (λ t. t ++ constructors_for c r.orphan_constructors)
          (attach_methods-constructors c r.orphan_methods r.classes),
  refl,
  refl,
)
  where
    ms : List (ℕ × EmbindClass)
    ms = attach_methods r.orphan_methods r.classes

    cs : List (ℕ × EmbindClass)
    cs = attach_constructors r.orphan_constructors ms

    methods :
        methods_at c (settle_classes r.types cs)
        ≡ sort_by method_le (methods_at c r.classes ++ methods_for c r.orphan_methods)
    methods =
        settle_classes-methods c r.types cs
        ∙ ap (sort_by method_le) (
            attach_constructors-methods c r.orphan_constructors ms
            ∙ attach_methods-at c r.orphan_methods r.classes)

-- ===== src/Abi/Layout/Table.antt =====
-- The function table of a layout against the element segments themselves.
use wa_wasm_oracle.Prelude.{
  ℕ, suc, ◌≡◌, refl, sym, ap, ◌∙◌, arith, List, [], ◌∷◌, ◌++◌, Option, none, some,
}
use wa_wasm_oracle.Prelude.Map.{nat_ord, lookup}
use wa_wasm_oracle.Prelude.Result.{Result, ok, err, ◌>>=◌}
use wa_wasm_oracle.Prelude.Text.{codes}
use wa_wasm_oracle.Abi.{
  Reader, Segment, Payload, type_section, import_section, function_section, export_section,
  element_section, data_section, code_section_entry, other_payload, AbiError, for_each,
  for_each_inv, TypeRef, ExternalKind, DataKind, Import, Export,
}
use wa_wasm_oracle.Abi.Layout.{
  Layout, Reading, nothing_read, const_offset, read_group, import_as, read_import, read_function,
  export_as, read_export, data_at, data_as, read_segments, read_payload, parsing_module,
  resolve_passive_segments, read,
}
use wa_wasm_oracle.Abi.Layout.Segments.{
  element_segments, segments_of_payload, in_slot, Fits, in_slot-append, Fits-append, Places,
  section-Places,
}

module _ (slot : ℕ) where
  -- The other sections leave the table alone.
  Keeps : Reading → Reading → Type 0
  Keeps r r' = r'.layout.table ≡ r.layout.table

  import_as-Keeps :
      (ty : TypeRef) (i : Import) (s r r' : Reading)
      → Keeps s r
      → import_as ty i r ≡ ok r'
      → Keeps s r'
  unfolding Keeps
  import_as-Keeps ty i s r r' k e = ground arith

  export_as-Keeps :
      (kind : ExternalKind) (x : Export) (s r r' : Reading)
      → Keeps s r
      → export_as kind x r ≡ ok r'
      → Keeps s r'
  unfolding Keeps
  export_as-Keeps kind x s r r' k e = ground arith

  data_as-Keeps :
      (kind : DataKind) (bytes : List ℕ) (i : ℕ) (s r : Reading)
      → Keeps s r
      → Keeps s (data_as kind bytes i r)
  unfolding Keeps
  data_as-Keeps (DataKind.active_data offset) bytes i s r k = at (const_offset offset)
    where
      at : (base : Option ℕ) → (data_at base bytes r).layout.table ≡ s.layout.table
      at (some base) = k
      at none = k
  data_as-Keeps DataKind.passive_data bytes i s r k = k

  read_segments-Keeps :
      (i : ℕ) (segments : Reader Segment) (s r r' : Reading)
      → Keeps s r
      → read_segments i segments r ≡ ok r'
      → Keeps s r'
  unfolding Keeps
  read_segments-Keeps i [] s r r' k e = ground arith
  read_segments-Keeps i (none ∷ segments) s r r' k e = cc
  read_segments-Keeps i (some g ∷ segments) s r r' k e =
      read_segments-Keeps (suc i) segments s (data_as g.kind g.bytes i r) r'
        (data_as-Keeps g.kind g.bytes i s r k) e

  Keeps-Places : (r r' : Reading) → Keeps r r' → Places slot [] r r'
  unfolding Keeps Places
  Keeps-Places r r' k fits = ap (lookup slot) k

  payload-Places :
      (p : Payload) (r r' : Reading)
      → read_payload p r ≡ ok r'
      → Places slot (segments_of_payload p) r r'
  unfolding Keeps
  payload-Places (type_section groups) r r' e = Keeps-Places r r' (
      for_each_inv (Keeps r) (codes "type") read_group (λ g s s' k h. ground arith) groups r r' refl
        e)
  payload-Places (import_section imports) r r' e = Keeps-Places r r' (
      for_each_inv (Keeps r) (codes "import") read_import (λ i. import_as-Keeps i.ty i r) imports r
        r' refl e)
  payload-Places (function_section types) r r' e = Keeps-Places r r' (
      for_each_inv (Keeps r) (codes "function") read_function (λ t s s' k h. ground arith) types r
        r' refl e)
  payload-Places (export_section exports) r r' e = Keeps-Places r r' (
      for_each_inv (Keeps r) (codes "export") read_export (λ x. export_as-Keeps x.kind x r) exports
        r r' refl e)
  payload-Places (element_section elements) r r' e = section-Places slot elements r r' e
  payload-Places (data_section segments) r r' e =
      Keeps-Places r r' (read_segments-Keeps 0 segments r r r' refl e)
  payload-Places (code_section_entry body) r r' e = Keeps-Places r r' (ground arith)
  payload-Places other_payload r r' e = Keeps-Places r r' (ground arith)

  payloads-Places :
      (payloads : Reader Payload) (r r' : Reading)
      → for_each parsing_module read_payload payloads r ≡ ok r'
      → Places slot (element_segments payloads) r r'
  unfolding Places
  payloads-Places [] r r' h fits = ground arith
  payloads-Places (none ∷ payloads) r r' h fits = cc
  payloads-Places (some p ∷ payloads) r r' h fits =
      from (λ m k. payloads-Places payloads m r' k) (read_payload p r) refl h
    where
      from :
          ((m : Reading)
            → for_each parsing_module read_payload payloads m ≡ ok r'
            → Places slot (element_segments payloads) m r')
          → (q : Result AbiError Reading) → read_payload p r ≡ q
          → (q >>= λ m. for_each parsing_module read_payload payloads m) ≡ ok r'
          → lookup slot r'.layout.table
            ≡ in_slot
                (segments_of_payload p ++ element_segments payloads)
                slot
                (lookup slot r.layout.table)
      from others (ok m) k g =
          let (now, later) = Fits-append (segments_of_payload p) (element_segments payloads) fits in
          others m g later
          ∙ ap (in_slot (element_segments payloads) slot) (payload-Places p r m k now)
          ∙ sym (in_slot-append (segments_of_payload p) (element_segments payloads) slot _)
      from others (err x) k g = cc

  -- The table that reading a module yields holds, in each slot, what the module's active element
  -- segments put there when they are placed one after another: the last segment that covers the
  -- slot decides. This is for segments that end at slot 2^32 at most.
  pub read-in_slot :
      (payloads : Reader Payload) (m : Layout)
      → Fits (element_segments payloads)
      → read payloads ≡ ok m
      → lookup slot m.table ≡ in_slot (element_segments payloads) slot none
  unfolding read Places lookup
  read-in_slot payloads m fits e =
      from (for_each parsing_module read_payload payloads nothing_read) refl e
    where
      resolved :
          (r : Reading) (q : Result AbiError (List (ℕ × List ℕ)))
          → (q >>= λ placed.
              ok (record r.layout { data_segments = r.layout.data_segments ++ placed }))
            ≡ ok m
          → lookup slot m.table ≡ lookup slot r.layout.table
      resolved r (ok placed) g = ground arith
      resolved r (err x) g = cc

      from :
          (q : Result AbiError Reading)
          → for_each parsing_module read_payload payloads nothing_read ≡ q
          → (q >>= λ r. resolve_passive_segments payloads r.passive >>= λ placed.
              ok (record r.layout { data_segments = r.layout.data_segments ++ placed }))
            ≡ ok m
          → lookup slot m.table ≡ in_slot (element_segments payloads) slot none
      from (ok r) k g =
          resolved r (resolve_passive_segments payloads r.passive) g
          ∙ payloads-Places payloads nothing_read r k fits
      from (err x) k g = cc

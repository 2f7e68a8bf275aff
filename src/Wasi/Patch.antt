-- ===== src/Wasi/Patch.antt =====
-- What writing into a file does to its bytes.
use wa_wasm_oracle.Prelude.{
  ℕ, ◌+◌, ◌-◌, ◌≡◌, List, ◌++◌, arith, length, take, drop, replicate, get_or, ltb, leb,
  if◌then◌else◌, ◌&&◌, max, length-append, length-take, length-drop, length-replicate,
}
use wa_wasm_oracle.Prelude.Bytes.{
  get_or-append, get_or-replicate, get_or-take, get_or-drop, get_or-outside, bytes_ext,
}
use wa_wasm_oracle.Wasi.{patch}

-- The file after `resize`.
abbrev sized : List ℕ → ℕ → List ℕ
sized contents end =
    if ltb (length contents) end then contents ++ replicate (end - length contents) 0 else contents

length-sized :
    (contents : List ℕ) (end : ℕ) → length (sized contents end) ≡ max (length contents) end
length-sized contents end = ground (
  arith,
  length-append contents (replicate (end - length contents) 0),
  length-replicate {A = ℕ} (end - length contents) 0,
)

get_or-sized :
    (contents : List ℕ) (end i : ℕ) → get_or (sized contents end) i 0 ≡ get_or contents i 0
get_or-sized contents end i = ground (
  arith,
  get_or-append contents (replicate (end - length contents) 0) i,
  get_or-replicate (end - length contents) (i - length contents),
  get_or-outside contents i,
)

-- A file grows to hold the payload and never shrinks.
pub length-patch :
    (contents : List ℕ) (offset : ℕ) (payload : List ℕ)
    → length (patch contents offset payload) ≡ max (length contents) (offset + length payload)
unfolding patch
length-patch contents offset payload =
    let s = sized contents (offset + length payload) in
    omega (
      arith,
      length-append (take offset s) (payload ++ drop (offset + length payload) s),
      length-append payload (drop (offset + length payload) s),
      length-take offset s,
      length-drop (offset + length payload) s,
      length-sized contents (offset + length payload),
    )

-- Each byte of the patched file is the payload's inside the written span and the old one outside;
-- a hole between the old end and the offset reads as zeros.
pub get_or-patch :
    (contents : List ℕ) (offset : ℕ) (payload : List ℕ) (i : ℕ)
    → get_or (patch contents offset payload) i 0 ≡ (
        if leb offset i && ltb i (offset + length payload)
        then get_or payload (i - offset) 0
        else get_or contents i 0)
unfolding patch
get_or-patch contents offset payload i =
    let end = offset + length payload in
    let s = sized contents end in
    ground (
      arith,
      get_or-append (take offset s) (payload ++ drop end s) i,
      get_or-append payload (drop end s) (i - offset),
      length-take offset s,
      length-sized contents end,
      get_or-take offset s i,
      get_or-drop end s (i - offset - length payload),
      get_or-sized contents end i,
    )

-- Writing two payloads one behind the other is writing them at once.
pub patch-append :
    (contents : List ℕ) (offset : ℕ) (front back : List ℕ)
    → patch (patch contents offset front) (offset + length front) back
      ≡ patch contents offset (front ++ back)
patch-append contents offset front back =
    bytes_ext _ _
      (omega (
        arith,
        length-patch (patch contents offset front) (offset + length front) back,
        length-patch contents offset front,
        length-patch contents offset (front ++ back),
        length-append front back,
      ))
      λ i lt. ground (
        arith,
        get_or-patch (patch contents offset front) (offset + length front) back i,
        get_or-patch contents offset front i,
        get_or-patch contents offset (front ++ back) i,
        get_or-append front back (i - offset),
        length-append front back,
      )

-- The written span holds the payload.
pub patch-reads :
    (contents : List ℕ) (offset : ℕ) (payload : List ℕ)
    → take (length payload) (drop offset (patch contents offset payload)) ≡ payload
patch-reads contents offset payload =
    let changed = patch contents offset payload in
    let long : length changed ≡ max (length contents) (offset + length payload) =
      length-patch contents offset payload in
    bytes_ext _ _
      (omega (
        arith,
        length-take (length payload) (drop offset changed),
        length-drop offset changed,
        long,
      ))
      λ i lt. ground (
        arith,
        length-take (length payload) (drop offset changed),
        length-drop offset changed,
        long,
        get_or-take (length payload) (drop offset changed) i,
        get_or-drop offset changed i,
        get_or-patch contents offset payload (offset + i),
      )

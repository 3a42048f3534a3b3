-- ===== src/Storage/Utf8/Encode.antt =====
-- Text from bytes and back: the paths that crates/download-manager/src/persistence.rs stores.
use mathlib.Core.List.{append_assoc}
use open_download_manager.Prelude.{
  ℕ, zero, suc, ◌+◌, ◌-◌, ◌*◌, ◌/◌, ◌%◌, ◌<◌, ◌≤◌, ◌++◌, ◌≡◌, refl, sym, ap, ◌∙◌, List, [], ◌∷◌,
  Option, none, some, arith, leb, ltb, ◌==◌, ◌&&◌, Bool-cases, inl, inr, ◌⊎◌,
}
use open_download_manager.Storage.Utf8.{
  push_char, Decoder, ready, inside, Step, refused, emits, goes_on, lead, push_bits, next_byte,
  after_step, decode_from, to_str, lossy_step, lossy_byte, lossy_from, from_utf8_lossy, encode_char,
  encode,
}

push_char-some :
    (c : ℕ) (rest : Option (List ℕ)) (s : List ℕ)
    → push_char c rest ≡ some s
    → (t : List ℕ) × (rest ≡ some t) × (s ≡ c ∷ t)
unfolding push_char
push_char-some c none s h = cc
push_char-some c (some t) s h = (t, refl, cc)

lossy_byte-decoded :
    (d : Decoder) (b : ℕ) (step : Step) (rest : Decoder → Option (List ℕ))
    (lossy : Decoder → List ℕ) (s : List ℕ)
    → ((e : Decoder) (t : List ℕ) → rest e ≡ some t → lossy e ≡ t)
    → after_step step rest ≡ some s
    → lossy_byte d b step lossy ≡ s
unfolding lossy_byte lossy_step after_step
lossy_byte-decoded d b refused rest lossy s same h = cc
lossy_byte-decoded ready b (emits c) rest lossy s same h =
    let (t, fine, e) = push_char-some c (rest ready) s h in
    ap (λ l. c ∷ l) (same ready t fine) ∙ sym e
lossy_byte-decoded (inside more low high bits) b (emits c) rest lossy s same h =
    let (t, fine, e) = push_char-some c (rest ready) s h in
    ap (λ l. c ∷ l) (same ready t fine) ∙ sym e
lossy_byte-decoded ready b (goes_on e) rest lossy s same h = same e s h
lossy_byte-decoded (inside more low high bits) b (goes_on e) rest lossy s same h = same e s h

lossy_from-decoded :
    (bytes : List ℕ) (d : Decoder) (s : List ℕ)
    → decode_from bytes d ≡ some s
    → lossy_from bytes d ≡ s
unfolding decode_from lossy_from
lossy_from-decoded [] ready s h = cc
lossy_from-decoded [] (inside more low high bits) s h = cc
lossy_from-decoded (b ∷ bytes) d s h =
    lossy_byte-decoded d b (next_byte d b) (decode_from bytes) (lossy_from bytes) s
      (λ e t. lossy_from-decoded bytes e t) h

-- Well-formed bytes lose nothing.
pub from_utf8_lossy-to_str : (bytes s : List ℕ) → to_str bytes ≡ some s → from_utf8_lossy bytes ≡ s
unfolding to_str from_utf8_lossy
from_utf8_lossy-to_str bytes s h = lossy_from-decoded bytes ready s h

-- The bytes of a character that has begun, from what the decoder holds: with one, two or three bytes
-- to come. The bounds of the next byte leave only characters that need that many bytes.
abbrev Shape : ℕ → ℕ → ℕ → List ℕ → Type 0
Shape zero low bits pre =
    ((2 ≤ bits) × (bits < 32) × (pre ≡ (0xc0 + bits) ∷ []))
    ⊎ (((32 ≤ bits) × (bits < 1024) × (pre ≡ (0xe0 + bits / 64) ∷ (0x80 + bits % 64) ∷ []))
        ⊎ ((1024 ≤ bits)
            × (pre ≡ (0xf0 + bits / 4096) ∷ (0x80 + bits / 64 % 64) ∷ (0x80 + bits % 64) ∷ [])))
Shape (suc zero) low bits pre =
    ((32 ≤ bits * 64 + (low - 0x80)) × (bits < 16) × (pre ≡ (0xe0 + bits) ∷ []))
    ⊎ ((16 ≤ bits) × (pre ≡ (0xf0 + bits / 64) ∷ (0x80 + bits % 64) ∷ []))
Shape (suc (suc zero)) low bits pre = (16 ≤ bits * 64 + (low - 0x80)) × (pre ≡ (0xf0 + bits) ∷ [])
Shape (suc (suc (suc more))) low bits pre = ⊥

abbrev Fits : Decoder → List ℕ → Type 0
Fits ready pre = pre ≡ []
Fits (inside more low high bits) pre = (0x80 ≤ low) × (high ≤ 0xbf) × Shape more low bits pre

abbrev StepFits : Step → List ℕ → Type 0
StepFits refused pre = Unit {0}
StepFits (emits c) pre = encode_char c ≡ pre
StepFits (goes_on d) pre = Fits d pre

-- Which bytes a character has, by its size.
encode_one : (c : ℕ) → c < 0x80 → encode_char c ≡ c ∷ []
unfolding encode_char
encode_one c h = ground arith

encode_two : (c : ℕ) → 0x80 ≤ c → c < 0x800 → encode_char c ≡ (0xc0 + c / 64) ∷ (0x80 + c % 64) ∷ []
unfolding encode_char
encode_two c h k = ground arith

encode_three :
    (c : ℕ)
    → 0x800 ≤ c
    → c < 0x10000
    → encode_char c ≡ (0xe0 + c / 4096) ∷ (0x80 + c / 64 % 64) ∷ (0x80 + c % 64) ∷ []
unfolding encode_char
encode_three c h k = ground arith

encode_four :
    (c : ℕ)
    → 0x10000 ≤ c
    → encode_char c
      ≡ (0xf0 + c / 262144) ∷ (0x80 + c / 4096 % 64) ∷ (0x80 + c / 64 % 64) ∷ (0x80 + c % 64) ∷ []
unfolding encode_char
encode_four c h = ground arith

list_one : {a b : ℕ} → a ≡ b → a ∷ [] ≡ b ∷ []
list_one e = ap (λ x. x ∷ []) e

list_cons : {a b : ℕ} {s t : List ℕ} → a ≡ b → s ≡ t → a ∷ s ≡ b ∷ t
list_cons e h = cc

lead-StepFits : (b : ℕ) → StepFits (lead b) (b ∷ [])
unfolding lead
lead-StepFits b = elim (Bool-cases (ltb b 0x80)) [
  | inl h0 ↦ rw h0 (encode_one b (ground (arith, h0)))
  | inr n0 ↦ elim (Bool-cases (ltb b 0xc2)) [
    | inl h1 ↦ rw (n0, h1) tt
    | inr n1 ↦ elim (Bool-cases (ltb b 0xe0)) [
      | inl h2 ↦
          rw (n0, n1, h2)
            (
              omega arith,
              omega arith,
              inl (ground (arith, n1), ground (arith, h2), list_one (ground (arith, n1))),
            )
      | inr n2 ↦ elim (Bool-cases (b == 0xe0)) [
        | inl h3 ↦
            rw (n0, n1, n2, h3)
              (
                omega arith,
                omega arith,
                inl (omega arith, omega arith, list_one (ground (arith, h3))),
              )
        | inr n3 ↦ elim (Bool-cases (b == 0xed)) [
          | inl h4 ↦
              rw (n0, n1, n2, n3, h4)
                (
                  omega arith,
                  omega arith,
                  inl (omega arith, omega arith, list_one (ground (arith, h4))),
                )
          | inr n4 ↦ elim (Bool-cases (ltb b 0xf0)) [
            | inl h5 ↦
                rw (n0, n1, n2, n3, n4, h5)
                  (
                    omega arith,
                    omega arith,
                    inl (ground (arith, n2, n3), ground (arith, h5), list_one (ground (arith, n2))),
                  )
            | inr n5 ↦ elim (Bool-cases (b == 0xf0)) [
              | inl h6 ↦
                  rw (n0, n1, n2, n3, n4, n5, h6)
                    (omega arith, omega arith, (omega arith, list_one (ground (arith, h6))))
              | inr n6 ↦ elim (Bool-cases (ltb b 0xf4)) [
                | inl h7 ↦
                    rw (n0, n1, n2, n3, n4, n5, n6, h7)
                      (
                        omega arith,
                        omega arith,
                        (ground (arith, n5, n6), list_one (ground (arith, n5))),
                      )
                | inr n7 ↦ elim (Bool-cases (b == 0xf4)) [
                  | inl h8 ↦
                      rw (n0, n1, n2, n3, n4, n5, n6, n7, h8)
                        (omega arith, omega arith, (omega arith, list_one (ground (arith, h8))))
                  | inr n8 ↦ rw (n0, n1, n2, n3, n4, n5, n6, n7, n8) tt
                ]
              ]
            ]
          ]
        ]
      ]
    ]
  ]
]

-- One more byte `0x80 + x` of six bits.
module _ (bits x : ℕ) (h : x < 64) where
  abbrev more_bits : ℕ
  more_bits = bits * 64 + x

  more-div : more_bits / 64 ≡ bits
  more-div = omega (arith, h)

  more-mod : more_bits % 64 ≡ x
  more-mod = omega (arith, h)

push_bits-StepFits :
    (more low bits x : ℕ) (pre : List ℕ)
    → Shape more low bits pre
    → low ≤ 0x80 + x
    → 0x80 ≤ low
    → x < 64
    → StepFits (push_bits more (bits * 64 + x)) (pre ++ (0x80 + x) ∷ [])
unfolding push_bits
push_bits-StepFits zero low bits x pre (inl (h, k, e)) lo z hi =
    let v = bits * 64 + x in
    rw (e, encode_two v (omega arith) (omega arith), more-div bits x hi, more-mod bits x hi) refl
push_bits-StepFits zero low bits x pre (inr (inl (h, k, e))) lo z hi =
    let v = bits * 64 + x in
    let top : v / 4096 ≡ bits / 64 = omega arith in
    rw (e, encode_three v (omega arith) (omega arith), top, more-div bits x hi, more-mod bits x hi)
      refl
push_bits-StepFits zero low bits x pre (inr (inr (h, e))) lo z hi =
    let v = bits * 64 + x in
    let top : v / 262144 ≡ bits / 4096 = omega arith in
    let next_top : v / 4096 ≡ bits / 64 = omega arith in
    rw (e, encode_four v (omega arith), top, next_top, more-div bits x hi, more-mod bits x hi) refl
push_bits-StepFits (suc zero) low bits x pre (inl (h, k, e)) lo z hi = (
  omega arith,
  omega arith,
  inr (inl (omega arith, omega arith, rw (e, more-div bits x hi, more-mod bits x hi) refl)),
)
push_bits-StepFits (suc zero) low bits x pre (inr (h, e)) lo z hi =
    let v = bits * 64 + x in
    let top : v / 4096 ≡ bits / 64 = omega arith in
    (
      omega arith,
      omega arith,
      inr (inr (omega arith, rw (e, top, more-div bits x hi, more-mod bits x hi) refl)),
    )
push_bits-StepFits (suc (suc zero)) low bits x pre (h, e) lo z hi = (
  omega arith,
  omega arith,
  inr (omega arith, rw (e, more-div bits x hi, more-mod bits x hi) refl),
)
push_bits-StepFits (suc (suc (suc more))) low bits x pre h lo z hi = absurd h

next_byte-StepFits :
    (d : Decoder) (b : ℕ) (pre : List ℕ) → Fits d pre → StepFits (next_byte d b) (pre ++ b ∷ [])
unfolding next_byte
next_byte-StepFits ready b pre e = rw e (lead-StepFits b)
next_byte-StepFits (inside more low high bits) b pre (z, top, shape) =
    elim (Bool-cases (leb low b && leb b high)) [
      | inl fits ↦
          let same : 0x80 + (b - 0x80) ≡ b = ground (arith, fits) in
          rw fits (
            rw same at (
              push_bits-StepFits more low bits (b - 0x80) pre shape (ground (arith, fits)) z
                (ground (arith, fits))))
      | inr wrong ↦ rw wrong tt
    ]

after_step-encode :
    (step : Step) (bytes pre s : List ℕ)
    → StepFits step pre
    → ((d : Decoder) (pre t : List ℕ)
        → Fits d pre
        → decode_from bytes d ≡ some t
        → encode t ≡ pre ++ bytes)
    → after_step step (decode_from bytes) ≡ some s
    → encode s ≡ pre ++ bytes
unfolding after_step encode
after_step-encode refused bytes pre s fits later h = cc
after_step-encode (emits c) bytes pre s fits later h =
    let (t, fine, e) = push_char-some c (decode_from bytes ready) s h in
    rw (e, fits, later ready [] t refl fine) refl
after_step-encode (goes_on d) bytes pre s fits later h = later d pre s fits h

decode_from-encode :
    (bytes : List ℕ) (d : Decoder) (pre s : List ℕ)
    → Fits d pre
    → decode_from bytes d ≡ some s
    → encode s ≡ pre ++ bytes
unfolding decode_from encode
decode_from-encode [] ready pre s fits h = let e : [] ≡ s = cc in rw (← e, fits) refl
decode_from-encode [] (inside more low high bits) pre s fits h = cc
decode_from-encode (b ∷ bytes) d pre s fits h =
    after_step-encode (next_byte d b) bytes (pre ++ b ∷ []) s (next_byte-StepFits d b pre fits)
      (λ e p t. decode_from-encode bytes e p t) h
    ∙ append_assoc pre (b ∷ []) bytes

-- Bytes that decode to a text are the bytes of that text.
pub to_str-encode : (bytes s : List ℕ) → to_str bytes ≡ some s → encode s ≡ bytes
unfolding to_str
to_str-encode bytes s h = decode_from-encode bytes ready [] s refl h

-- Bytes that are UTF-8 come back from the text that `from_utf8_lossy` makes of them.
pub encode-from_utf8_lossy :
    (bytes s : List ℕ) → to_str bytes ≡ some s → encode (from_utf8_lossy bytes) ≡ bytes
encode-from_utf8_lossy bytes s h =
    ap encode (from_utf8_lossy-to_str bytes s h) ∙ to_str-encode bytes s h

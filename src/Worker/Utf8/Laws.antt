-- ===== src/Worker/Utf8/Laws.antt =====
-- What ToValidUTF8 keeps: every encoded text.
use minkube.Base.{
  ℕ, ◌+◌, ◌/◌, ◌%◌, ◌<◌, ◌≤◌, List, [], ◌∷◌, ◌++◌, true, nat_eq, if◌then◌else◌, ltb, ◌≡◌, refl,
  arith, All, ap, ◌∙◌, ◌⊎◌, inl, inr, Bool-cases,
}
use minkube.Worker.Utf8.{
  tail_size, accepts, continues, has_tail, rune_size, copy_valid, to_valid_utf8,
}

-- The bytes of a code point, by the table of the Unicode standard.
abbrev pub encode_rune : ℕ → List ℕ
encode_rune c =
    if ltb c 0x80
    then c ∷ []
    else (if ltb c 0x800
        then (0xc0 + c / 64) ∷ (0x80 + c % 64) ∷ []
        else (if ltb c 0x10000
            then (0xe0 + c / 4096) ∷ (0x80 + c / 64 % 64) ∷ (0x80 + c % 64) ∷ []
            else (0xf0 + c / 262144)
              ∷ (0x80 + c / 4096 % 64)
              ∷ (0x80 + c / 64 % 64)
              ∷ (0x80 + c % 64)
              ∷ []))

abbrev pub encode_text : List ℕ → List ℕ
encode_text [] = []
encode_text (c ∷ cs) = encode_rune c ++ encode_text cs

-- A code point that is no surrogate.
abbrev pub IsScalar : ℕ → Type 0
IsScalar c = (c < 0xd800) ⊎ ((0xdfff < c) × (c < 0x110000))

copy_one : (c : ℕ) (rest : List ℕ) → c < 0x80 → copy_valid 0 (c ∷ rest) ≡ c ∷ copy_valid 0 rest
unfolding copy_valid rune_size
copy_one c rest h = ground arith

copy_two :
    (a b : ℕ) (rest : List ℕ)
    → 0xc2 ≤ a
    → a ≤ 0xdf
    → 0x80 ≤ b
    → b ≤ 0xbf
    → copy_valid 0 (a ∷ b ∷ rest) ≡ a ∷ b ∷ copy_valid 0 rest
unfolding copy_valid rune_size has_tail accepts continues tail_size
copy_two a b rest p q r s = ground arith

copy_three :
    (a b d : ℕ) (rest : List ℕ)
    → 0xe0 ≤ a
    → a ≤ 0xef
    → accepts a b ≡ true
    → 0x80 ≤ d
    → d ≤ 0xbf
    → copy_valid 0 (a ∷ b ∷ d ∷ rest) ≡ a ∷ b ∷ d ∷ copy_valid 0 rest
unfolding copy_valid rune_size has_tail continues tail_size
copy_three a b d rest p q r s t = ground arith

copy_four :
    (a b d e : ℕ) (rest : List ℕ)
    → 0xf0 ≤ a
    → a ≤ 0xf4
    → accepts a b ≡ true
    → 0x80 ≤ d
    → d ≤ 0xbf
    → 0x80 ≤ e
    → e ≤ 0xbf
    → copy_valid 0 (a ∷ b ∷ d ∷ e ∷ rest) ≡ a ∷ b ∷ d ∷ e ∷ copy_valid 0 rest
unfolding copy_valid rune_size has_tail continues tail_size
copy_four a b d e rest p q r s t u v = ground arith

accepts_three :
    (c : ℕ)
    → 0x800 ≤ c
    → c < 0x10000
    → IsScalar c
    → accepts (0xe0 + c / 4096) (0x80 + c / 64 % 64) ≡ true
unfolding accepts
accepts_three c h k s = ground arith

accepts_four :
    (c : ℕ) → 0x10000 ≤ c → c < 0x110000 → accepts (0xf0 + c / 262144) (0x80 + c / 4096 % 64) ≡ true
unfolding accepts
accepts_four c h k = ground arith

copy-encode_rune :
    (c : ℕ) (rest : List ℕ)
    → IsScalar c
    → copy_valid 0 (encode_rune c ++ rest) ≡ encode_rune c ++ copy_valid 0 rest
copy-encode_rune c rest s = elim (Bool-cases (ltb c 0x80)) [
  | inl a ↦ rw a (copy_one c rest (ground arith))
  | inr a ↦ elim (Bool-cases (ltb c 0x800)) [
    | inl b ↦
        rw (a, b)
          (copy_two (0xc0 + c / 64) (0x80 + c % 64) rest (ground arith) (ground arith) (omega arith)
            (omega arith))
    | inr b ↦ elim (Bool-cases (ltb c 0x10000)) [
      | inl d ↦
          rw (a, b, d)
            (copy_three (0xe0 + c / 4096) (0x80 + c / 64 % 64) (0x80 + c % 64) rest (omega arith)
              (ground arith) (accepts_three c (ground arith) (ground arith) s) (omega arith)
              (omega arith))
      | inr d ↦
          rw (a, b, d)
            (copy_four (0xf0 + c / 262144) (0x80 + c / 4096 % 64) (0x80 + c / 64 % 64)
              (0x80 + c % 64) rest (omega arith) (ground arith)
              (accepts_four c (ground arith) (ground arith)) (omega arith) (omega arith)
              (omega arith) (omega arith))
    ]
  ]
]

-- ToValidUTF8 keeps every text that is the encoding of code points.
pub to_valid-encode_text :
    (cs : List ℕ) → All IsScalar cs → to_valid_utf8 (encode_text cs) ≡ encode_text cs
unfolding to_valid_utf8
to_valid-encode_text [] s = unfold copy_valid in refl
to_valid-encode_text (c ∷ cs) s =
    copy-encode_rune c (encode_text cs) s.0
    ∙ ap (λ bs. encode_rune c ++ bs) (to_valid-encode_text cs s.1)

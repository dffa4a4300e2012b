-- ===== src/Worker/Utf8.antt =====
-- Go's `strings.ToValidUTF8(s, "")`, which internal/worker/service/worker.go applies to each log
-- payload: on the bytes of the text.
pub mod Laws
use minkube.Base.{
  ℕ, zero, suc, ◌+◌, ◌-◌, List, [], ◌∷◌, Bool, true, false, nat_eq, ◌==◌, if◌then◌else◌, ◌&&◌, leb,
  ltb,
}

abbrev pub in_range : ℕ → ℕ → ℕ → Bool
in_range lo hi b = leb lo b && leb b hi

-- How many bytes follow the first byte of a rune of several bytes; 0 for any other byte.
unfoldable pub tail_size : ℕ → ℕ
tail_size a =
    if in_range 0xc2 0xdf a
    then 1
    else (if in_range 0xe0 0xef a then 2 else (if in_range 0xf0 0xf4 a then 3 else 0))

-- The range of the second byte, by the first.
unfoldable pub accepts : ℕ → ℕ → Bool
accepts a b =
    if a == 0xe0
    then in_range 0xa0 0xbf b
    else (if a == 0xed
        then in_range 0x80 0x9f b
        else (if a == 0xf0
            then in_range 0x90 0xbf b
            else (if a == 0xf4 then in_range 0x80 0x8f b else in_range 0x80 0xbf b)))

-- The list starts with so many continuation bytes.
unfoldable pub continues : ℕ → List ℕ → Bool
continues zero bs = true
continues (suc k) [] = false
continues (suc k) (b ∷ bs) = let rest = continues k bs in in_range 0x80 0xbf b && rest

unfoldable pub has_tail : ℕ → List ℕ → Bool
unfolding accepts continues
has_tail a [] = false
has_tail a (b ∷ bs) = accepts a b && continues (tail_size a - 1) bs

-- `utf8.DecodeRuneInString` on a byte and what follows it, as far as it is used: the number of bytes
-- of the rune that stands here, or 0 for an invalid encoding.
unfoldable pub rune_size : ℕ → List ℕ → ℕ
unfolding has_tail tail_size
rune_size a rest =
    if ltb a 0x80
    then 1
    else (if tail_size a == 0 then 0 else (if has_tail a rest then suc (tail_size a) else 0))

-- The first argument counts the bytes that are left of the current rune.
unfoldable pub copy_valid : ℕ → List ℕ → List ℕ
unfolding rune_size
copy_valid k [] = []
copy_valid (suc k) (b ∷ bs) = b ∷ copy_valid k bs
copy_valid zero (b ∷ bs) = elim (rune_size b bs) [
  | zero ↦ copy_valid zero bs
  | suc k ↦ b ∷ copy_valid k bs
]

unfoldable pub to_valid_utf8 : List ℕ → List ℕ
unfolding copy_valid
to_valid_utf8 bs = copy_valid 0 bs

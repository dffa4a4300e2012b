-- ===== src/ManagerHttp/Auth/Token.antt =====
-- internal/manager/http/api.go: bearerToken, with strings.SplitN and strings.TrimSpace as it uses
-- them.
use Prim.Native.Char.{Char, code}
use Prim.Native.String.{String}
use minkube.Base.{
  ℕ, Bool, Option, none, some, string_eq, nat_eq, ◌==◌, if◌then◌else◌, ◌||◌, ◌&&◌, leb, not,
}

-- `unicode.IsSpace`
unfoldable pub is_space : ℕ → Bool
is_space c =
    (leb 9 c && leb c 13)
    || (c == 32)
    || (c == 0x85)
    || (c == 0xa0)
    || (c == 0x1680)
    || (leb 0x2000 c && leb c 0x200a)
    || (c == 0x2028)
    || (c == 0x2029)
    || (c == 0x202f)
    || (c == 0x205f)
    || (c == 0x3000)

abbrev pub push_front : Char → Option (String × String) → Option (String × String)
push_front c none = none
push_front c (some (s, t)) = some (String.◌∷◌ c s, t)

-- `strings.SplitN(s, " ", 2)`: what stands before the first space and what stands behind it; `none`
-- if there is no space.
unfoldable pub split_at_space : String → Option (String × String)
split_at_space String.[] = none
split_at_space (String.◌∷◌ c s) =
    let rest = split_at_space s in if code c == 32 then some ("", s) else push_front c rest

unfoldable pub trim_left : String → String
unfolding is_space
trim_left String.[] = ""
trim_left (String.◌∷◌ c s) =
    let rest = trim_left s in if is_space (code c) then rest else String.◌∷◌ c s

unfoldable pub trim_right : String → String
unfolding is_space
trim_right String.[] = ""
trim_right (String.◌∷◌ c s) =
    let rest = trim_right s in if is_space (code c) && rest == "" then "" else String.◌∷◌ c rest

-- `strings.TrimSpace`
unfoldable pub trim_space : String → String
unfolding trim_left trim_right
trim_space s = trim_right (trim_left s)

-- The errors are not told apart by the callers: `none` stands for each of the three.
unfoldable pub bearer_token : String → Option String
unfolding split_at_space trim_space
bearer_token auth_header = if auth_header == "" then none else elim (split_at_space auth_header) [
  | none ↦ none
  | some (scheme, rest) ↦
      if not (scheme == "Bearer")
      then none
      else (let token = trim_space rest in if token == "" then none else some token)
]

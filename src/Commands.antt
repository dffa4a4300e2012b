-- ===== src/Commands.antt =====
-- cmd/manager/main.go and cmd/worker/main.go: what the two processes are started with.
pub mod Laws
use Prim.Native.Char.{Char, code}
use Prim.Native.String.{String}
use minkube.Base.{
  ℕ, ◌+◌, ◌-◌, ◌*◌, ◌^◌, List, [], ◌∷◌, Bool, Option, none, some, string_eq, nat_eq, ◌==◌,
  if◌then◌else◌, ◌&&◌, leb, ltb,
}
use minkube.Base.Int.{ℤ, pos, negsuc, sub_ℕ, int_bound}
use minkube.Base.Queue.{QueueOps}
use minkube.Heap.{Heap}
use minkube.Manager.{Manager, new}
use minkube.Task.{Time}

-- A character in front of the first of the texts.
abbrev pub push_first : Char → List String → List String
push_first c [] = String.◌∷◌ c "" ∷ []
push_first c (s ∷ rest) = String.◌∷◌ c s ∷ rest

-- `strings.Split(s, ",")`
unfoldable pub split_commas : String → List String
split_commas String.[] = "" ∷ []
split_commas (String.◌∷◌ c s) =
    let rest = split_commas s in if code c == b',' then "" ∷ rest else push_first c rest

-- The names in MINKUBE_WORKERS; `none` ends the process.
unfoldable pub workers_of : String → Option (List String)
unfolding split_commas
workers_of workers_str = if workers_str == "" then none else some (split_commas workers_str)

-- The manager that `main` makes.
unfoldable pub start_manager :
    {Q : Type 0} ⦃queue : QueueOps Q⦄ → Heap → String → Time → Option (Manager Q)
unfolding workers_of
start_manager heap workers_str now = elim (workers_of workers_str) [
  | none ↦ none
  | some workers ↦ some (new heap workers now)
]

-- `strconv.ParseUint` in base 10: the largest number for a value that does not fit, found before
-- the characters behind it are read; `none` is the error for any other character.
unfoldable pub uint_digits : ℕ → String → Option ℕ
uint_digits acc String.[] = some acc
uint_digits acc (String.◌∷◌ c s) =
    let next = acc * 10 + (code c - b'0') in
    let rest = uint_digits next s in
    if leb b'0' (code c) && leb (code c) b'9'
    then (if ltb next (2 ^ 64) then rest else some (2 ^ 64 - 1))
    else none

unfoldable pub parse_uint : String → Option ℕ
unfolding uint_digits
parse_uint s = if s == "" then none else uint_digits 0 s

-- The value that comes with the error: 0 for a text that is no number, and the nearest int64 for one
-- out of range.
abbrev pub clamped : Option ℕ → ℤ
clamped none = pos 0
clamped (some n) = if ltb n int_bound then pos n else pos (int_bound - 1)

abbrev pub clamped_negative : Option ℕ → ℤ
clamped_negative none = pos 0
clamped_negative (some n) = if leb n int_bound then sub_ℕ 0 n else sub_ℕ 0 int_bound

-- `port, _ := strconv.ParseInt(portStr, 10, 64)`, which drops the error.
unfoldable pub worker_port : String → ℤ
unfolding parse_uint
worker_port String.[] = pos 0
worker_port (String.◌∷◌ c s) =
    if code c == b'-'
    then clamped_negative (parse_uint s)
    else (if code c == b'+' then clamped (parse_uint s) else clamped (parse_uint (String.◌∷◌ c s)))

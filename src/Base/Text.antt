-- ===== src/Base/Text.antt =====
-- The functions of Go's `strings` that the operator uses, over the characters of a text.
use Prim.Native.Nat.{ℕ, zero, suc, ◌/◌, ◌%◌}
use Prim.Native.Char.{Char, code}
use Prim.Native.String.{String, ◌++◌ as ◌<>◌}
use mathlib.Core.Bool.{Bool, true, false, ◌&&◌, ◌||◌}
use mathlib.Core.List.{List, [], ◌∷◌}
use obs_operator.Base.Equality.{◌==◌, nat_eq}
use obs_operator.Base.Tests.{if◌then◌else◌, leb, ltb}

-- `unicode.IsSpace`.
unfoldable pub is_space : ℕ → Bool
unfolding nat_eq
is_space c =
    (leb 9 c && leb c 13)
    || c == 32
    || c == 0x85
    || c == 0xa0
    || c == 0x1680
    || (leb 0x2000 c && leb c 0x200a)
    || c == 0x2028
    || c == 0x2029
    || c == 0x202f
    || c == 0x205f
    || c == 0x3000

abbrev pub is_empty : String → Bool
is_empty String.[] = true
is_empty (String.◌∷◌ _ _) = false

module _ (drop : ℕ → Bool) where
  -- `strings.TrimLeftFunc`
  unfoldable pub trim_left : String → String
  trim_left String.[] = String.[]
  trim_left (String.◌∷◌ c s) = if drop (code c) then trim_left s else String.◌∷◌ c s

  -- What is kept behind `c` when the rest has been trimmed on the right.
  abbrev keep : Char → String → String
  keep c String.[] = if drop (code c) then String.[] else String.◌∷◌ c String.[]
  keep c (String.◌∷◌ d s) = String.◌∷◌ c (String.◌∷◌ d s)

  -- `strings.TrimRightFunc`
  unfoldable pub trim_right : String → String
  trim_right String.[] = String.[]
  trim_right (String.◌∷◌ c s) = keep c (trim_right s)

-- `strings.TrimSpace`
unfoldable pub trim_space : String → String
unfolding trim_left trim_right is_space
trim_space s = trim_right is_space (trim_left is_space s)

-- `strings.HasPrefix`
unfoldable pub has_prefix : String → String → Bool
unfolding nat_eq
has_prefix s String.[] = true
has_prefix String.[] (String.◌∷◌ _ _) = false
has_prefix (String.◌∷◌ c s) (String.◌∷◌ d t) = code c == code d && has_prefix s t

-- `strings.Contains`
unfoldable pub has_substring : String → String → Bool
unfolding has_prefix
has_substring String.[] t = has_prefix String.[] t
has_substring (String.◌∷◌ c s) t = has_prefix (String.◌∷◌ c s) t || has_substring s t

abbrev push_head : Char → List String → List String
push_head c [] = String.◌∷◌ c String.[] ∷ []
push_head c (p ∷ ps) = String.◌∷◌ c p ∷ ps

-- `strings.Split` at a one-character separator.
unfoldable pub split : ℕ → String → List String
unfolding nat_eq
split sep String.[] = String.[] ∷ []
split sep (String.◌∷◌ c s) =
    let parts = split sep s in if code c == sep then String.[] ∷ parts else push_head c parts

-- `parts[len(parts)-1]`, of a list that is never empty.
unfoldable pub last_part : List String → String
last_part [] = String.[]
last_part (p ∷ []) = p
last_part (p ∷ q ∷ ps) = last_part (q ∷ ps)

digit : ℕ → String
unfolding nat_eq
digit d =
    if d == 0
    then "0"
    else if d == 1
    then "1"
    else if d == 2
    then "2"
    else if d == 3
    then "3"
    else if d == 4
    then "4"
    else if d == 5
    then "5"
    else if d == 6
    then "6"
    else if d == 7
    then "7"
    else if d == 8
    then "8"
    else "9"

-- The last digit stands behind the digits of the quotient; `n` rounds are enough for `n`.
decimal_from : ℕ → ℕ → String
unfolding digit
decimal_from zero n = digit n
decimal_from (suc f) n =
    let front = decimal_from f (n / 10) in if ltb n 10 then digit n else front <> digit (n % 10)

-- `fmt.Sprint` of a number.
unfoldable pub decimal : ℕ → String
unfolding decimal_from
decimal n = decimal_from n n

-- ===== src/Prelude/Text.antt =====
-- Texts as the source builds them: numbers in template literals and clipped messages.
use Prim.Native.Nat.{ℕ, zero, suc, ◌/◌, ◌%◌, ◌<◌}
use Prim.Native.String
use Prim.Native.Char.{Char, code}
use Prim.Native.String.{String, [], ◌∷◌}
use mathlib.Core.Bool.{true, false}
use mathlib.Core.List.{List}
use mathlib.Core.Path.{◌≡◌}
use native.Mathlib.Omega.{arith}
use code_host.Prelude.Tests.{ltb, ◌==◌, if◌then◌else◌}

infixr 65 ◌++◌
unfoldable pub ◌++◌ : String → String → String
◌++◌ s t = String.◌++◌ s t

-- `text.slice(0, n)`, by code points.
unfoldable pub clip : ℕ → String → String
clip zero s = ""
clip (suc n) [] = ""
clip (suc n) (c ∷ s) = c ∷ clip n s

-- `text.length`, by code points.
abbrev pub size : String → ℕ
size [] = 0
size (c ∷ s) = suc (size s)

abbrev digit : ℕ → String
digit zero = "0"
digit (suc zero) = "1"
digit (suc (suc zero)) = "2"
digit (suc (suc (suc zero))) = "3"
digit (suc (suc (suc (suc zero)))) = "4"
digit (suc (suc (suc (suc (suc zero))))) = "5"
digit (suc (suc (suc (suc (suc (suc zero)))))) = "6"
digit (suc (suc (suc (suc (suc (suc (suc zero))))))) = "7"
digit (suc (suc (suc (suc (suc (suc (suc (suc zero)))))))) = "8"
digit _ = "9"

decimal_from : ℕ → ℕ → String
decimal_from zero n = ""
decimal_from (suc f) n =
    let rest = decimal_from f (n / 10) in
    if ltb n 10 then digit n else String.◌++◌ rest (digit (n % 10))

-- `${n}`
unfoldable pub decimal : ℕ → String
unfolding decimal_from
decimal n = decimal_from (suc n) n

decimal_from-fuel : (f g n : ℕ) → n < f → n < g → decimal_from f n ≡ decimal_from g n
unfolding decimal_from
decimal_from-fuel zero g n h k = elim h [ ]
decimal_from-fuel (suc f) zero n h k = elim k [ ]
decimal_from-fuel (suc f) (suc g) n h k = ground (arith, decimal_from-fuel f g (n / 10))

-- `lines.join('\n')`
unfoldable pub join_lines : List String → String
join_lines List.[] = ""
join_lines (List.◌∷◌ line List.[]) = line
join_lines (List.◌∷◌ line rest) = String.◌++◌ line (String.◌++◌ "\n" (join_lines rest))

abbrev hex_digit : ℕ → String
hex_digit n = elim (ltb n 10) [
  | true ↦ digit n
  | false ↦
      if n == 10
      then "a"
      else if n == 11
      then "b"
      else if n == 12
      then "c"
      else if n == 13
      then "d"
      else if n == 14
      then "e"
      else "f"
]

-- One character of a JSON string.
abbrev escape : Char → String
escape c =
    if code c == 34
    then "\\\""
    else if code c == 92
    then "\\\\"
    else if code c == 8
    then "\\b"
    else if code c == 9
    then "\\t"
    else if code c == 10
    then "\\n"
    else if code c == 12
    then "\\f"
    else if code c == 13
    then "\\r"
    else if ltb (code c) 32
    then String.◌++◌ "\\u00" (String.◌++◌ (hex_digit (code c / 16)) (hex_digit (code c % 16)))
    else c ∷ ""

escape_all : String → String
escape_all [] = ""
escape_all (c ∷ s) = String.◌++◌ (escape c) (escape_all s)

-- `JSON.stringify` of a string.
unfoldable pub quote : String → String
unfolding escape_all
quote s = String.◌++◌ "\"" (String.◌++◌ (escape_all s) "\"")

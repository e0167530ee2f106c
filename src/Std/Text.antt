-- ===== src/Std/Text.antt =====
-- Strings, as the bytes of their UTF-8 encoding.
pub mod Laws
use mathlib.Core.List.{reverse}
use Prim.Native.String.{String}
use Prim.Native.Char.{code}
use swarm_discovery.Prelude.{
  ℕ, zero, suc, ◌+◌, ◌-◌, ◌/◌, ◌%◌, Bool, true, false, ◌&&◌, List, [], ◌∷◌, ◌++◌, Option, none,
  some, ltb, leb, ◌==◌, ◌≡◌, if◌then◌else◌,
}

abbrev pub Str : Type 0
Str = List ℕ

-- A literal of ASCII characters.
abbrev pub codes : String → Str
codes String.[] = []
codes (String.◌∷◌ c s) = code c ∷ codes s

abbrev pub is_empty {ℓ} : {A : Type ℓ} → List A → Bool
is_empty [] = true
is_empty (_ ∷ _) = false

-- `split_once(c)` at an ASCII character: what stands before and after the first occurrence.
unfoldable pub split_once : ℕ → Str → Option (Str × Str)
split_once c [] = none
split_once c (b ∷ s) =
    if b == c
    then some ([], s)
    else elim (split_once c s) [ none ↦ none | some (before, after) ↦ some (b ∷ before, after) ]

-- A number in decimal, its last digit first; the fuel is at least the number of digits.
unfoldable pub digits_rev : ℕ → ℕ → Str
digits_rev zero n = []
digits_rev (suc fuel) n =
    let rest = digits_rev fuel (n / 10) in if ltb n 10 then (n + 48) ∷ [] else (n % 10 + 48) ∷ rest

-- `{n}` of `format!`: `n + 1` rounds are enough, since each divides by ten.
unfoldable pub decimal : ℕ → Str
unfolding digits_rev
decimal n = reverse (digits_rev (suc n) n)

-- The ranges of the continuation bytes that a leading byte asks for.
abbrev pub Pending : Type 0
Pending = List (ℕ × ℕ)

abbrev within : ℕ → ℕ → ℕ → Bool
within lo hi b = leb lo b && leb b hi

unfoldable pub lead : ℕ → Option Pending
lead b =
    if leb b 0x7f
    then some []
    else if within 0xc2 0xdf b
    then some ((0x80, 0xbf) ∷ [])
    else if b == 0xe0
    then some ((0xa0, 0xbf) ∷ (0x80, 0xbf) ∷ [])
    else if b == 0xed
    then some ((0x80, 0x9f) ∷ (0x80, 0xbf) ∷ [])
    else if within 0xe1 0xef b
    then some ((0x80, 0xbf) ∷ (0x80, 0xbf) ∷ [])
    else if b == 0xf0
    then some ((0x90, 0xbf) ∷ (0x80, 0xbf) ∷ (0x80, 0xbf) ∷ [])
    else if within 0xf1 0xf3 b
    then some ((0x80, 0xbf) ∷ (0x80, 0xbf) ∷ (0x80, 0xbf) ∷ [])
    else if b == 0xf4
    then some ((0x80, 0x8f) ∷ (0x80, 0xbf) ∷ (0x80, 0xbf) ∷ [])
    else none

unfoldable pub utf8_from : Pending → List ℕ → Bool
utf8_from [] [] = true
utf8_from (p ∷ ps) [] = false
utf8_from (p ∷ ps) (b ∷ bs) = within p.0 p.1 b && utf8_from ps bs
utf8_from [] (b ∷ bs) = elim (lead b) [ none ↦ false | some ps ↦ utf8_from ps bs ]

-- `std::str::from_utf8`
unfoldable pub from_utf8 : List ℕ → Option Str
unfolding utf8_from lead
from_utf8 bs = if utf8_from [] bs then some bs else none

-- Every `String` is valid UTF-8.
abbrev pub IsUtf8 : Str → Type 0
IsUtf8 s = utf8_from [] s ≡ true

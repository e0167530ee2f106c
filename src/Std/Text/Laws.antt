-- ===== src/Std/Text/Laws.antt =====
-- The laws of strings that the encoding of TXT records and target names rests on.
use mathlib.Core.List.{reverse, reverse-reverse}
use swarm_discovery.Prelude.{
  ℕ, zero, suc, ◌+◌, ◌-◌, ◌/◌, ◌<◌, ◌*◌, ◌≡◌, refl, ap, sym, ◌∙◌, true, false, [], ◌∷◌, ◌++◌, none,
  some, ltb, ◌==◌, arith, All, inl, inr, Option-cases, Bool-cases,
}
use swarm_discovery.Std.Text.{
  Str, codes, split_once, digits_rev, decimal, utf8_from, lead, Pending, IsUtf8,
}

-- The byte does not occur.
abbrev pub Lacks : ℕ → Str → Type 0
Lacks c s = All (λ b. (b == c) ≡ false) s

pub split_once-append : (c : ℕ) (s t : Str) → Lacks c s → split_once c (s ++ c ∷ t) ≡ some (s, t)
unfolding split_once
split_once-append c [] t h = ground arith
split_once-append c (b ∷ s) t h = ground (arith, split_once-append c s t h.1)

pub split_once-Lacks : (c : ℕ) (s : Str) → Lacks c s → split_once c s ≡ none
unfolding split_once
split_once-Lacks c [] h = refl
split_once-Lacks c (b ∷ s) h = ground (arith, split_once-Lacks c s h.1)

pub utf8_from-append :
    (ps : Pending) (s t : Str) → utf8_from ps s ≡ true → IsUtf8 t → utf8_from ps (s ++ t) ≡ true
unfolding utf8_from
utf8_from-append [] [] t h k = k
utf8_from-append (p ∷ ps) [] t h k = cc
utf8_from-append (p ∷ ps) (b ∷ s) t h k = ground (arith, utf8_from-append ps s t)
utf8_from-append [] (b ∷ s) t h k = elim (Option-cases (lead b)) [
  | inl e ↦ cc (rw (e, utf8_from) at h)
  | inr (ps, e) ↦ rw (e, utf8_from) (utf8_from-append ps s t (rw (e, utf8_from) at h) k)
]

-- The number that digits stand for, its last digit first.
value : Str → ℕ
value [] = 0
value (d ∷ ds) = (d - 48) + 10 * value ds

value-digits_rev : (fuel n : ℕ) → n < fuel → value (digits_rev fuel n) ≡ n
unfolding value digits_rev
value-digits_rev zero n h = elim h [ ]
value-digits_rev (suc fuel) n h = elim (Bool-cases (ltb n 10)) [
  | inl few ↦ rw (few, value) (ground arith)
  | inr more ↦ rw (more, value) (ground (arith, value-digits_rev fuel (n / 10)))
]

decimal_digits : (n : ℕ) → value (reverse (decimal n)) ≡ n
unfolding decimal
decimal_digits n = rw (reverse-reverse) (value-digits_rev (suc n) n (omega arith))

-- Different numbers print differently.
pub decimal_injective : (m n : ℕ) → decimal m ≡ decimal n → m ≡ n
decimal_injective m n h = sym (decimal_digits m) ∙ ap (λ s. value (reverse s)) h ∙ decimal_digits n

decimal_runs : decimal 65535 ≡ codes "65535"
unfolding decimal
decimal_runs = refl

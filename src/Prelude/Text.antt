-- ===== src/Prelude/Text.antt =====
-- Python's `str` as the list of its code points.
use Prim.Native.Char.{code}
use Prim.Native.Nat.{ℕ, zero, suc, ◌+◌, ◌/◌, ◌%◌}
use Prim.Native.String.{String}
use mathlib.Core.Path.{◌≡◌}
use mathlib.Core.Logic.{◌↔◌}
use mathlib.Core.Bool.{Bool, true, false, ◌&&◌, ◌||◌}
use mathlib.Core.List.{List, [], ◌∷◌}
use native.Mathlib.Omega.{arith}
use signalproject.Prelude.Tests.{Eq, nat_eq, ltb, if◌then◌else◌}

abbrev pub Text : Type 0
Text = List ℕ

abbrev pub codes : String → Text
codes String.[] = []
codes (String.◌∷◌ c s) = code c ∷ codes s

abbrev pub text_eq : Text → Text → Bool
text_eq [] [] = true
text_eq [] (b ∷ bs) = false
text_eq (a ∷ as') [] = false
text_eq (a ∷ as') (b ∷ bs) = nat_eq a b && text_eq as' bs

pub text_eq_iff : (a b : Text) → (text_eq a b ≡ true) ↔ (a ≡ b)
text_eq_iff [] [] = ground arith
text_eq_iff [] (b ∷ bs) = ground arith
text_eq_iff (a ∷ as') [] = ground arith
text_eq_iff (a ∷ as') (b ∷ bs) = ground (arith, text_eq_iff as' bs)

instance abbrev pub Text-eq : Eq Text
Text-eq = record { beq = text_eq; beq_iff = text_eq_iff }

-- `not text`
abbrev pub is_empty : Text → Bool
is_empty [] = true
is_empty (c ∷ cs) = false

abbrev pub starts_with : Text → Text → Bool
starts_with [] t = true
starts_with (a ∷ as') [] = false
starts_with (a ∷ as') (b ∷ bs) = nat_eq a b && starts_with as' bs

-- `part in text`
abbrev pub is_substring : Text → Text → Bool
is_substring part [] = starts_with part []
is_substring part (c ∷ cs) = starts_with part (c ∷ cs) || is_substring part cs

-- `a < b`, by code points
abbrev pub text_lt : Text → Text → Bool
text_lt as' [] = false
text_lt [] (b ∷ bs) = true
text_lt (a ∷ as') (b ∷ bs) = ltb a b || (nat_eq a b && text_lt as' bs)

-- `str(n)` of a natural number; `n + 1` rounds are enough, since a division by ten makes `n` smaller.
abbrev decimal_digits : (fuel n : ℕ) → Text → Text
decimal_digits zero n rest = rest
decimal_digits (suc fuel) n rest =
    let longer = decimal_digits fuel (n / 10) ((b'0' + n % 10) ∷ rest) in
    if ltb n 10 then (b'0' + n) ∷ rest else longer

unfoldable pub decimal : ℕ → Text
decimal n = decimal_digits (suc n) n []

-- `text.endswith(c)`, and `text[:-1]`
abbrev pub ends_with : ℕ → Text → Bool
ends_with c [] = false
ends_with c (d ∷ []) = nat_eq d c
ends_with c (d ∷ e ∷ rest) = ends_with c (e ∷ rest)

abbrev pub drop_last : Text → Text
drop_last [] = []
drop_last (d ∷ []) = []
drop_last (d ∷ e ∷ rest) = d ∷ drop_last (e ∷ rest)

abbrev pub all_chars : (ℕ → Bool) → Text → Bool
all_chars p [] = true
all_chars p (c ∷ cs) = p c && all_chars p cs

-- ===== src/Prelude/Texts.antt =====
-- Texts are modelled by their UTF-8 bytes. A literal of the sources is written through `codes`,
-- which gives the bytes of a text that is ASCII, as all of them are.
use Prim.Native.Nat.{ℕ, zero, suc, ◌+◌, ◌/◌, ◌%◌}
use Prim.Native.Char.{code}
use Prim.Native.String.{String}
use mathlib.Core.Path.{◌≡◌, refl}
use mathlib.Core.Logic.{◌↔◌}
use mathlib.Core.Bool.{Bool, true, false, ◌&&◌}
use mathlib.Core.List.{List, [], ◌∷◌, ◌++◌}
use native.Mathlib.Omega.{arith}
use rosrust.Prelude.Tests.{◌==◌, ltb, if◌then◌else◌}

abbrev pub Bytes : Type 0
Bytes = List ℕ

abbrev pub codes : String → Bytes
codes String.[] = []
codes (String.◌∷◌ c s) = code c ∷ codes s

-- `==` on texts.
unfoldable pub equal : Bytes → Bytes → Bool
equal [] [] = true
equal (x ∷ xs) (y ∷ ys) = x == y && equal xs ys
equal _ _ = false

pub equal_iff : (s t : Bytes) → (equal s t ≡ true) ↔ (s ≡ t)
unfolding equal
equal_iff (c ∷ s) (d ∷ t) = ground (arith, equal_iff s t)
equal_iff _ _ = ground arith

pub equal_refl : (a : Bytes) → equal a a ≡ true
equal_refl a = (equal_iff a a).1 refl

-- `==` on lists of texts.
unfoldable pub equal_all : List Bytes → List Bytes → Bool
equal_all [] [] = true
equal_all (x ∷ xs) (y ∷ ys) = equal x y && equal_all xs ys
equal_all _ _ = false

pub equal_all_iff : (a b : List Bytes) → (equal_all a b ≡ true) ↔ (a ≡ b)
unfolding equal_all
equal_all_iff (x ∷ a) (y ∷ b) = ground (arith, equal_iff x y, equal_all_iff a b)
equal_all_iff _ _ = ground arith

-- `{}` of a number below 10 ^ 20, as every `usize` and `u32` is.
unfoldable pub decimal : ℕ → ℕ → Bytes
decimal zero n = []
decimal (suc f) n =
    let more = decimal f (n / 10) in
    if ltb n 10 then (b'0' + n) ∷ [] else more ++ (b'0' + n % 10) ∷ []

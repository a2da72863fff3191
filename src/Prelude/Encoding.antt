-- ===== src/Prelude/Encoding.antt =====
-- Texts as bytes, and numbers as bytes in network order.
use Prim.Native.Nat.{ℕ, zero, suc, ◌+◌, ◌*◌, ◌^◌, ◌/◌, ◌%◌, ◌<◌}
use Prim.Native.Char.{code}
use Prim.Native.String.{String, ◌++◌ as ◌<>◌}
use Prim.Native.String.append
use mathlib.Core.Path.{◌≡◌, sym, ap, ◌∙◌}
use mathlib.Core.List.{List, [], ◌∷◌, ◌++◌, append_assoc}
use native.Mathlib.Nat.{div-add-mod', div-div-eq-div-mul, div-eq_of_lt, pow-suc}
use native.Mathlib.Omega.{arith}
use temporal_nbd.Prelude.Tests.{ltb, if◌then◌else◌}

-- The bytes of a character in UTF-8, by its number.
utf8 : ℕ → List ℕ
utf8 c =
    if ltb c 0x80
    then c ∷ []
    else if ltb c 0x800
    then (0xc0 + c / 0x40) ∷ (0x80 + c % 0x40) ∷ []
    else if ltb c 0x10000
    then (0xe0 + c / 0x1000) ∷ (0x80 + c / 0x40 % 0x40) ∷ (0x80 + c % 0x40) ∷ []
    else (0xf0 + c / 0x40000)
      ∷ (0x80 + c / 0x1000 % 0x40)
      ∷ (0x80 + c / 0x40 % 0x40)
      ∷ (0x80 + c % 0x40)
      ∷ []

-- `String::into_bytes`
unfoldable pub into_bytes : String → List ℕ
unfolding utf8
into_bytes String.[] = []
into_bytes (String.◌∷◌ c s) = utf8 (code c) ++ into_bytes s

pub into_bytes-append : (s t : String) → into_bytes (s <> t) ≡ into_bytes s ++ into_bytes t
unfolding into_bytes
into_bytes-append String.[] t = ap into_bytes (append.nil t)
into_bytes-append (String.◌∷◌ c s) t =
    ap into_bytes (append.cons c s t)
    ∙ ap (λ b. utf8 (code c) ++ b) (into_bytes-append s t)
    ∙ sym (append_assoc (utf8 (code c)) (into_bytes s) (into_bytes t))

-- `to_be_bytes` of a number of `n` bytes.
abbrev pub to_be_bytes : ℕ → ℕ → List ℕ
to_be_bytes zero x = []
to_be_bytes (suc n) x = (x / 256 ^ n % 256) ∷ to_be_bytes n x

-- `from_be_bytes`, after the bytes that make `acc`.
abbrev pub be_value : ℕ → List ℕ → ℕ
be_value acc [] = acc
be_value acc (b ∷ bs) = be_value (acc * 256 + b) bs

abbrev pub from_be_bytes : List ℕ → ℕ
from_be_bytes = be_value 0

be_value-to_be_bytes : (n x : ℕ) → be_value (x / 256 ^ n) (to_be_bytes n x) ≡ x
be_value-to_be_bytes zero x = omega arith
be_value-to_be_bytes (suc n) x =
    let quotient = x / 256 ^ n in
    let front : x / 256 ^ suc n * 256 + quotient % 256 ≡ quotient =
      ap (λ q. q * 256 + quotient % 256)
        (ap (λ m. x / m) (pow-suc 256 n) ∙ sym (div-div-eq-div-mul x (256 ^ n) 256))
      ∙ div-add-mod' quotient 256 in
    ap (λ acc. be_value acc (to_be_bytes n x)) front ∙ be_value-to_be_bytes n x

-- A number that fits is read back from its bytes.
pub from_be_bytes-to_be_bytes : (n x : ℕ) → x < 256 ^ n → from_be_bytes (to_be_bytes n x) ≡ x
from_be_bytes-to_be_bytes n x h =
    ap (λ acc. be_value acc (to_be_bytes n x)) (sym (div-eq_of_lt h)) ∙ be_value-to_be_bytes n x

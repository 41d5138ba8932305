-- ===== src/Text.antt =====
-- Texts as lists of code points, and the two printers that semantic keys are built with: a decimal
-- integer in an f-string, and `str` of a UUID, which is read as its 128-bit integer.
use Prim.Native.Char.{code}
use Prim.Native.String.{String}
use auto_trading_v.Prelude.{
  ℕ, zero, suc, ◌+◌, ◌/◌, ◌%◌, ◌^◌, ◌≡◌, refl, List, [], ◌∷◌, ◌++◌, ltb, if◌then◌else◌,
}

abbrev pub Text : Type 0
Text = List ℕ

-- The code points of a literal.
abbrev pub codes : String → Text
codes String.[] = []
codes (String.◌∷◌ c s) = code c ∷ codes s

-- '0' to '9', then 'a' to 'f'
unfoldable pub digit : ℕ → ℕ
digit d = if ltb d 10 then d + b'0' else d + 87

-- The fuel is the number of digits at most; the number plus one is enough of it.
unfoldable pub print_decimal : ℕ → ℕ → Text
unfolding digit
print_decimal zero n = []
print_decimal (suc fuel) n =
    let more = print_decimal fuel (n / 10) ++ digit (n % 10) ∷ [] in
    if ltb n 10 then digit n ∷ [] else more

-- f"{n}"
unfoldable pub decimal : ℕ → Text
unfolding print_decimal
decimal n = print_decimal (suc n) n

-- The last k hexadecimal digits of n.
unfoldable pub hex : ℕ → ℕ → Text
unfolding digit
hex zero n = []
hex (suc k) n = hex k (n / 16) ++ digit (n % 16) ∷ []

-- str(uuid): groups of 8, 4, 4, 4 and 12 digits.
unfoldable pub uuid_text : ℕ → Text
unfolding hex
uuid_text u =
    hex 8 (u / 16 ^ 24)
    ++ b'-'
      ∷ (hex 4 (u / 16 ^ 20)
          ++ b'-' ∷ (hex 4 (u / 16 ^ 16) ++ b'-' ∷ (hex 4 (u / 16 ^ 12) ++ b'-' ∷ hex 12 u)))

decimal_example : decimal 1203 ≡ codes "1203"
unfolding decimal
decimal_example = refl

uuid_text_example :
    uuid_text 0x0123456789abcdef0123456789abcdef ≡ codes "01234567-89ab-cdef-0123-456789abcdef"
unfolding uuid_text
uuid_text_example = refl

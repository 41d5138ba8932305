-- ===== src/PaperOrders/Codes.antt =====
-- The texts of UUIDs as parts of codes: their length, and their last character.
use auto_trading_v.Prelude.{
  ℕ, zero, suc, ◌+◌, ◌/◌, ◌%◌, ◌^◌, ◌≡◌, ◌<◌, refl, ◌∙◌, false, some, [], ◌∷◌, ◌++◌, length,
  length-append, arith,
}
use auto_trading_v.Text.{Text, digit, hex, uuid_text}
use auto_trading_v.PaperOrders.{last?, is_space}

length-hex : (k n : ℕ) → length (hex k n) ≡ k
unfolding hex
length-hex zero n = refl
length-hex (suc k) n =
    rw (length-append (hex k (n / 16)) (digit (n % 16) ∷ [])) (omega (arith, length-hex k (n / 16)))

length-group : (k n : ℕ) (rest : Text) → length (hex k n ++ b'-' ∷ rest) ≡ k + suc (length rest)
length-group k n rest = rw (length-append (hex k n) (b'-' ∷ rest)) (omega (arith, length-hex k n))

pub length-uuid_text : (u : ℕ) → length (uuid_text u) ≡ 36
unfolding uuid_text
length-uuid_text u = rw (length-group 8 (u / 16 ^ 24) _) refl

pub last-append : (xs : Text) (y : ℕ) (ys : Text) → last? (xs ++ y ∷ ys) ≡ last? (y ∷ ys)
last-append [] y ys = refl
last-append (x ∷ []) y ys = refl
last-append (x ∷ x' ∷ xs) y ys = last-append (x' ∷ xs) y ys

last-hex : (k n : ℕ) → last? (hex (suc k) n) ≡ some (digit (n % 16))
unfolding hex
last-hex k n = last-append (hex k (n / 16)) (digit (n % 16)) []

pub digit_visible : (d : ℕ) → d < 16 → is_space (digit d) ≡ false
unfolding digit
digit_visible d h = ground arith

pub last-uuid_text : (u : ℕ) (c : ℕ) → last? (c ∷ uuid_text u) ≡ some (digit (u % 16))
unfolding uuid_text hex
last-uuid_text u c =
    let t4 = hex 12 u in
    let t3 = hex 4 (u / 16 ^ 12) ++ b'-' ∷ t4 in
    let t2 = hex 4 (u / 16 ^ 16) ++ b'-' ∷ t3 in
    let t1 = hex 4 (u / 16 ^ 20) ++ b'-' ∷ t2 in
    last-append (c ∷ hex 8 (u / 16 ^ 24)) b'-' t1
    ∙ last-append (b'-' ∷ hex 4 (u / 16 ^ 20)) b'-' t2
    ∙ last-append (b'-' ∷ hex 4 (u / 16 ^ 16)) b'-' t3
    ∙ last-append (b'-' ∷ hex 4 (u / 16 ^ 12)) b'-' t4
    ∙ last-append (b'-' ∷ hex 11 (u / 16)) (digit (u % 16)) []

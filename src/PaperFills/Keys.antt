-- ===== src/PaperFills/Keys.antt =====
-- The execution keys of an order's two fills (domain/paper_fills/execution_keys.py).
use auto_trading_v.Prelude.{
  ◌==◌, ℕ, zero, suc, ◌+◌, ◌≡◌, ◌≤◌, refl, true, false, some, [], ◌∷◌, ◌++◌, length, length-append,
  arith, ok,
}
use auto_trading_v.Text.{Text, codes, decimal, print_decimal, digit, uuid_text}
use auto_trading_v.PaperOrders.{is_space, code_ok, is_stripped, last?}
use auto_trading_v.PaperOrders.Codes.{length-uuid_text, last-append}
use auto_trading_v.PaperFills.{key_text, paper_fill_execution_key}

abbrev prefix : Text
prefix = codes "|fill-policy:internal-paper-split-fill|version:v1|sequence:"

length-key :
    (order_id : ℕ) (c : ℕ)
    → length (codes "order:" ++ uuid_text order_id ++ (prefix ++ c ∷ [])) ≡ 102
length-key order_id c =
    rw (length-append (uuid_text order_id) (prefix ++ c ∷ []), length-uuid_text order_id) refl

last-key :
    (order_id : ℕ) (c : ℕ)
    → last? (codes "order:" ++ uuid_text order_id ++ (prefix ++ c ∷ [])) ≡ some c
last-key order_id c = last-append (codes "order:" ++ uuid_text order_id) b'|' _

key_text_cases :
    (order_id number : ℕ)
    → number ≤ 1
    → key_text order_id (number + 1)
      ≡ codes "order:" ++ uuid_text order_id ++ (prefix ++ digit (number + 1) ∷ [])
unfolding key_text decimal print_decimal digit
key_text_cases order_id zero h = refl
key_text_cases order_id (suc zero) h = refl
key_text_cases order_id (suc (suc n)) h = absurd (omega arith)

digit_visible : (number : ℕ) → number ≤ 1 → is_space (digit (number + 1)) ≡ false
unfolding digit
digit_visible number h = ground arith

length-key_text : (order_id number : ℕ) → number ≤ 1 → length (key_text order_id (number + 1)) ≡ 102
length-key_text order_id number h =
    rw (key_text_cases order_id number h) (length-key order_id (digit (number + 1)))

-- The key of the first fill or the second.
pub key-ok :
    (order_id number : ℕ)
    → number ≤ 1
    → paper_fill_execution_key order_id (number + 1) ≡ ok (key_text order_id (number + 1))
unfolding paper_fill_execution_key
key-ok order_id number h = rw (positive number, length-key_text order_id number h) refl
  where
    positive : (n : ℕ) → (n + 1 == 0) ≡ false
    positive n = ground arith

pub key-code_ok :
    (order_id number : ℕ) → number ≤ 1 → code_ok 160 (key_text order_id (number + 1)) ≡ true
unfolding code_ok is_stripped
key-code_ok order_id number h =
    rw
      (
        key_text_cases order_id number h,
        length-key order_id (digit (number + 1)),
        last-key order_id (digit (number + 1)),
        digit_visible number h,
      )
      refl

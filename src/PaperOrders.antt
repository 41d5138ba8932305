-- ===== src/PaperOrders.antt =====
-- domain/paper_orders/models.py, and the order contracts of
-- application/contracts/paper_orders.py: states, and what a record of each state looks like.
pub mod Shape
pub mod Codes
use auto_trading_v.Prelude.{
  ℕ, Bool, true, false, ◌&&◌, ◌||◌, not, Option, none, some, List, [], ◌∷◌, length, ltb, leb, ◌==◌,
  is_none, is_some, if◌then◌else◌, Result, ok, raise, raise_if, ◌>>=◌, ◌>>◌,
}
use auto_trading_v.Text.{Text, codes}

pub data PaperOrderStatus : Type 0 where
  created accepted partially_filled filled cancelled rejected expired : PaperOrderStatus

-- `is` between two members of the enumeration.
abbrev pub status_eq : PaperOrderStatus → PaperOrderStatus → Bool
status_eq created created = true
status_eq accepted accepted = true
status_eq partially_filled partially_filled = true
status_eq filled filled = true
status_eq cancelled cancelled = true
status_eq rejected rejected = true
status_eq expired expired = true
status_eq _ _ = false

pub data PaperOrderError : Type 0 where
  rejection_code_invalid state_inconsistent code_invalid version_invalid : PaperOrderError
  updated_precedes_submitted accepted_precedes_submitted closed_precedes_submitted : PaperOrderError

-- str.isspace of one code point.
abbrev pub is_space : ℕ → Bool
is_space c =
    leb 9 c && leb c 13
    || (leb 28 c && leb c 32)
    || c == 0x85
    || c == 0xa0
    || c == 0x1680
    || (leb 0x2000 c && leb c 0x200a)
    || c == 0x2028
    || c == 0x2029
    || c == 0x202f
    || c == 0x205f
    || c == 0x3000

-- The last code point, if there is one.
abbrev pub last? : Text → Option ℕ
last? [] = none
last? (c ∷ []) = some c
last? (_ ∷ c ∷ r) = last? (c ∷ r)

abbrev pub space_at : Option ℕ → Bool
space_at none = false
space_at (some c) = is_space c

abbrev pub first? : Text → Option ℕ
first? [] = none
first? (c ∷ _) = some c

-- value == value.strip()
unfoldable pub is_stripped : Text → Bool
is_stripped t = not (space_at (first? t)) && not (space_at (last? t))

-- _validate_code
unfoldable pub code_ok : ℕ → Text → Bool
unfolding is_stripped
code_ok maximum t = not (length t == 0) && is_stripped t && leb (length t) maximum

abbrev pub optional_code_ok : ℕ → Option Text → Bool
optional_code_ok maximum none = true
optional_code_ok maximum (some t) = code_ok maximum t

-- Which optional fields a state has.
unfoldable pub state_shape : PaperOrderStatus → Option ℕ → Option ℕ → Option Text → Bool
state_shape created accepted_at closed_at code =
    is_none accepted_at && is_none closed_at && is_none code
state_shape accepted accepted_at closed_at code =
    is_some accepted_at && is_none closed_at && is_none code
state_shape partially_filled accepted_at closed_at code =
    is_some accepted_at && is_none closed_at && is_none code
state_shape filled accepted_at closed_at code =
    is_some accepted_at && is_some closed_at && is_none code
state_shape rejected accepted_at closed_at code =
    is_none accepted_at && is_some closed_at && is_some code
state_shape cancelled accepted_at closed_at code = is_some closed_at && is_none code
state_shape expired accepted_at closed_at code = is_some closed_at && is_none code

unfoldable pub validate_paper_order_state :
    PaperOrderStatus → Option ℕ → Option ℕ → Option Text → Result PaperOrderError (Unit {0})
unfolding state_shape
validate_paper_order_state status accepted_at closed_at code = do
  raise_if (not (optional_code_ok 64 code)) rejection_code_invalid
  raise_if (not (state_shape status accepted_at closed_at code)) state_inconsistent

-- NewPaperOrder and StoredPaperOrder, less the time at which the database recorded the row.
pub record PaperOrder : Type 0 where
  pub order_id : ℕ
  pub trade_intent_id : ℕ
  pub client_order_id : ℕ
  pub broker_code : Text
  pub broker_order_ref : Option Text
  pub status : PaperOrderStatus
  pub rejection_code : Option Text
  pub submitted_at : ℕ
  pub accepted_at : Option ℕ
  pub closed_at : Option ℕ
  pub version : ℕ
  pub updated_at : ℕ

abbrev pub precedes : Option ℕ → ℕ → Bool
precedes none t = false
precedes (some s) t = ltb s t

-- NewPaperOrder.__post_init__
unfoldable pub new_paper_order : PaperOrder → Result PaperOrderError PaperOrder
unfolding validate_paper_order_state
new_paper_order o = do
  raise_if (not (code_ok 32 o.broker_code)) code_invalid
  raise_if (not (optional_code_ok 160 o.broker_order_ref)) code_invalid
  raise_if (o.version == 0) version_invalid
  raise_if (ltb o.updated_at o.submitted_at) updated_precedes_submitted
  raise_if (precedes o.accepted_at o.submitted_at) accepted_precedes_submitted
  raise_if (precedes o.closed_at o.submitted_at) closed_precedes_submitted
  validate_paper_order_state o.status o.accepted_at o.closed_at o.rejection_code
  ok o

-- INTERNAL_PAPER_BROKER_CODE
abbrev pub internal_paper_broker_code : Text
internal_paper_broker_code = codes "INTERNAL_PAPER"

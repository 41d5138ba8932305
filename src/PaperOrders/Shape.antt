-- ===== src/PaperOrders/Shape.antt =====
-- Lemmas on the checks of an order's record (domain/paper_orders/models.py).
use auto_trading_v.Prelude.{ℕ, ◌≡◌, refl, true, none, some, arith, ok}
use auto_trading_v.PaperOrders.{PaperOrderStatus, created, PaperOrder, new_paper_order, status_eq}

pub status_eq_refl : (s : PaperOrderStatus) → status_eq s s ≡ true
status_eq_refl created = refl
status_eq_refl _ = refl

pub status_eq→eq : (s t : PaperOrderStatus) → status_eq s t ≡ true → s ≡ t
status_eq→eq s t h = ground arith

-- What an open order and what a filled one look like, once the record's checks have passed.
pub record IsOpen (o : PaperOrder) : Type 0 where
  pub accepted_time : ℕ
  pub accepted_at : o.accepted_at ≡ some accepted_time
  pub closed_at : o.closed_at ≡ none
  pub rejection_code : o.rejection_code ≡ none

pub new_paper_order-keeps : (o o' : PaperOrder) → new_paper_order o ≡ ok o' → o' ≡ o
unfolding new_paper_order
new_paper_order-keeps o o' h = ground arith

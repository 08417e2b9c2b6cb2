-- ===== src/Fulfilment/Confirmed.antt =====
-- `DispatchService.confirm` (service.py) from the stock to the ledger.
use engage_os.Base.{ℕ, ◌≡◌, ◌⊎◌, Option}
use engage_os.Base.Int.{◌+ℤ◌}
use engage_os.Core.Action.{Action, Result, ok, err, gets, modify, ◌>>◌}
use engage_os.Core.Money.{Money}
use engage_os.Core.Table.{get}
use engage_os.Ledger.Bridge.{Payload, on_unit_dispatched}
use engage_os.Ledger.Bridge.Posted.{DispatchPosted, DispatchRefused}
use engage_os.Fulfilment.{
  order_model, Dispatch, dispatch_model, Shop, maybe_mark_so_dispatched, set_confirmed,
  dispatched_payload,
}
use engage_os.Fulfilment.Value.{stock_value}

module _ (year : ℕ → ℕ) (today : ℕ) where
  abbrev booked : Payload → Shop → Shop
  booked p s = record s { ledger = (on_unit_dispatched year today p s.ledger).1 }

  abbrev behind_event : Dispatch → Action Shop (Option Dispatch)
  behind_event d =
      modify (maybe_mark_so_dispatched d.so_id) >> gets (λ (s : Shop). get d.id s.dispatches)

  abbrev finished : Dispatch → ℕ → Money → Shop → Shop
  finished d actor_id total s =
      maybe_mark_so_dispatched d.so_id
        (booked (dispatched_payload d total actor_id) (set_confirmed d.id s))

  -- What confirming a draft comes to: an error before the event, or a cost that has left the stock and
  -- has gone to the ledger.
  abbrev pub ConfirmOutcome : Dispatch → ℕ → Shop → Result (Option Dispatch) × Shop → Type 0
  ConfirmOutcome d actor_id s (err x, s') = s'.ledger ≡ s.ledger
  ConfirmOutcome d actor_id s (ok r, s') =
      (total_cogs : Money) × (stock_value s.stock.units ≡ stock_value s'.stock.units +ℤ total_cogs)
      × (((s'.ledger ≡ s.ledger)
            × DispatchRefused year today (dispatched_payload d total_cogs actor_id) s.ledger)
          ⊎ DispatchPosted year today (dispatched_payload d total_cogs actor_id) s.ledger s'.ledger)

-- ===== src/Receivables/Invoices/Issued.antt =====
-- `InvoiceService.issue` and `void` (service.py), with the ledger behind the event bus.
use engage_os.Base.{ℕ, ◌≡◌, refl, ◌⊎◌, Option, none, some}
use engage_os.Core.Action.{Action, Result, ok, gets, modify}
use engage_os.Core.Keeps.{Keeps, keeps}
use engage_os.Core.Events.{emit_event_async}
use engage_os.Core.Table.{get}
use engage_os.Ledger.Models.{Ledger}
use engage_os.Ledger.Bridge.{Payload, on_invoice_created, register_bridge_handlers}
use engage_os.Ledger.Bridge.Posted.{InvoicePosted, InvoiceRefused}
use engage_os.Receivables.Models.{InvoiceStatus, SalesInvoice, invoice_model}
use engage_os.Receivables.Invoices.{
  Books, issued_payload, set_status, put_status, emit, emit_void, void_invoice,
}

module _ (year : ℕ → ℕ) (today : ℕ) where
  abbrev booked : Payload → Books → Books
  booked p b = record b { ledger = (on_invoice_created year today p b.ledger).1 }

  abbrev reload : SalesInvoice → Action Books (Option SalesInvoice)
  reload invoice = gets (λ (b : Books). get invoice.id b.receivables.invoices)

  -- What issuing a draft comes to.
  pub record IsIssued (actor_id : ℕ) (invoice : SalesInvoice) (b : Books)
      (o : Result (Option SalesInvoice) × Books) : Type 0 where
    pub result : o.0 ≡ ok (some (set_status InvoiceStatus.issued invoice))
    pub receivables : o.1.receivables ≡ (put_status invoice.id InvoiceStatus.issued b).receivables
    pub ledger :
        ((o.1.ledger ≡ b.ledger)
          × InvoiceRefused year today (issued_payload invoice actor_id) b.ledger)
        ⊎ InvoicePosted year today (issued_payload invoice actor_id) b.ledger o.1.ledger

  abbrev SameLedger : Ledger → Books → Type 0
  SameLedger l b = b.ledger ≡ l

  emit_void-Keeps :
      (l : Ledger) (je_id : Option ℕ) (actor_id : ℕ)
      → Keeps (SameLedger l) (emit_void year today je_id actor_id)
  unfolding Keeps emit_void emit emit_event_async register_bridge_handlers
  emit_void-Keeps l none actor_id b h = h
  emit_void-Keeps l (some je) actor_id b h = h

  put_status-Keeps :
      (l : Ledger) (i : ℕ) (st : InvoiceStatus) → Keeps (SameLedger l) (modify (put_status i st))
  unfolding Keeps
  put_status-Keeps l i st b h = h

  void_invoice-Keeps :
      (l : Ledger) (i actor_id : ℕ) → Keeps (SameLedger l) (void_invoice year today i actor_id)
  unfolding void_invoice
  void_invoice-Keeps l i actor_id = search (keeps, emit_void-Keeps, put_status-Keeps) depth 9

  -- Voiding an invoice leaves the ledger as it is, whatever entry its issue has posted.
  pub void_invoice_ledger :
      (i actor_id : ℕ) (b : Books) → (void_invoice year today i actor_id b).1.ledger ≡ b.ledger
  void_invoice_ledger i actor_id b = unfold Keeps in void_invoice-Keeps b.ledger i actor_id b refl

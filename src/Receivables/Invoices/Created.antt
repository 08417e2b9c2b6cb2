-- ===== src/Receivables/Invoices/Created.antt =====
-- `InvoiceService.create` (service.py): the invoice, its lines and its totals.
use engage_os.Base.{ℕ, ◌+◌, ◌≡◌, ◌⊎◌, Option, none, some, List, [], ◌∷◌, ◌++◌, map}
use engage_os.Base.Int.{pos, ◌+ℤ◌}
use engage_os.Core.Action.{Action, Result, ok, gets, ◌>>◌}
use engage_os.Core.Money.{Money}
use engage_os.Core.Table.{get}
use engage_os.Receivables.Models.{
  InvoiceStatus, SalesInvoice, invoice_model, SalesInvoiceLine, Receivables,
}
use engage_os.Receivables.Invoices.{
  InvoiceLineRequest, InvoiceCreateRequest, line_total_of, tax_amount_of, line_gross_of, new_line,
  Totals, store_totals,
}

-- A column of the lines, summed.
abbrev pub sum_of : (SalesInvoiceLine → Money) → List SalesInvoiceLine → Money
sum_of f [] = pos 0
sum_of f (l ∷ ls) = f l +ℤ sum_of f ls

abbrev totals_after : List InvoiceLineRequest → Totals → Totals
totals_after [] t = t
totals_after (r ∷ rs) t = totals_after rs (record {
  subtotal = t.subtotal +ℤ line_total_of r;
  tax_total = t.tax_total +ℤ tax_amount_of r;
  total = t.total +ℤ line_gross_of r;
})

abbrev with_lines : List SalesInvoiceLine → Receivables → Receivables
with_lines ls s = record s { lines = s.lines ++ ls }

-- The totals of a loop, from those before it.
abbrev AddsUp : ℕ → List InvoiceLineRequest → Totals → Type 0
AddsUp i rs t =
    let t' = totals_after rs t in
    let ls = map (new_line i) rs in
    (t'.subtotal ≡ t.subtotal +ℤ sum_of (λ l. l.line_total) ls)
    × (t'.tax_total ≡ t.tax_total +ℤ sum_of (λ l. l.tax_amount) ls)
    × (t'.total ≡ t.total +ℤ (sum_of (λ l. l.line_total) ls +ℤ sum_of (λ l. l.tax_amount) ls))

-- An id among those of the customers.
abbrev pub IsKnown : ℕ → List ℕ → Type 0
IsKnown i [] = ⊥
IsKnown i (c ∷ cs) = (c ≡ i) ⊎ IsKnown i cs

-- What a successful call leaves: the draft with its lines, the totals being those of the lines.
pub record IsCreated (r : InvoiceCreateRequest) (s : Receivables) (invoice : SalesInvoice)
    (o : Result (Option SalesInvoice) × Receivables) : Type 0 where
  pub result : o ≡ (
    ok (some invoice),
    record s {
      invoices = s.invoices ++ invoice ∷ [];
      lines = s.lines ++ map (new_line s.next_id) r.lines;
      next_id = s.next_id + 1;
    },
  )
  pub id : invoice.id ≡ s.next_id
  pub customer_id : invoice.customer_id ≡ r.customer_id
  pub status : invoice.status ≡ InvoiceStatus.draft
  pub dates : (invoice.posting_date ≡ r.posting_date) × (invoice.due_date ≡ r.due_date)
  pub je_id : invoice.je_id ≡ none
  pub subtotal : invoice.subtotal ≡ sum_of (λ l. l.line_total) (map (new_line s.next_id) r.lines)
  pub tax_total : invoice.tax_total ≡ sum_of (λ l. l.tax_amount) (map (new_line s.next_id) r.lines)
  pub total : invoice.total ≡ invoice.subtotal +ℤ invoice.tax_total

abbrev finish : ℕ → Totals → Action Receivables (Option SalesInvoice)
finish i totals = store_totals i totals >> gets (λ (s : Receivables). get i s.invoices)

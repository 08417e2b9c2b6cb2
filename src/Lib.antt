-- ===== src/Lib.antt =====
-- EngageOS, a WhatsApp CRM with ERP modules: the parts of its backend (Python, under backend/app)
-- that keep state by rules, modelled over explicit tables.
--
-- The program is a set of FastAPI modules over one database session per request. A router calls a
-- service; the service reads and writes through repositories, raises on a broken rule, and emits
-- events on an in-process bus; the router commits, or rolls back what a raise left behind. The
-- inventory and sales modules reach the general ledger only through the bus: the ledger's bridge
-- subscribes to their events and posts journal entries in the emitter's session. The conversations
-- module keeps who is in charge of a chat, the AI or an agent, and is called by the messaging tasks,
-- the AI orchestrator and the agents' routes.
--
-- How the parts correspond:
--   Base           shared names, Boolean tests, lists, signed integers (Base.Int)
--   Core           backend/app/core and backend/app/db: Exceptions (core/exceptions.py), Action (a
--                  service method as a function of the session), Keeps (methods and invariants), Table (BaseRepository.get and
--                  update of db/repository.py), Money (core/money.py), Events (core/events.py)
--   Ledger         backend/app/modules/ledger: Models (models.py, constants.py), Gates and Posting
--                  (PostingService.post and reverse of posting.py), Balance (sum_by_account of
--                  repository.py and the trial balance), Periods (PeriodService), Accounts
--                  (AccountService.create), Bridge (bridge.py)
--   Conversations  backend/app/modules/conversations: StateMachine (state_machine.py), Store
--                  (models.py, repository.py, and the queries of messaging), Service
--                  (ConversationService), Bulk (bulk_update), Locking (acquire_lock), Requests (the
--                  methods in any order)
--   Receivables    backend/app/modules/receivables: Models (models.py, constants.py), Invoices
--                  (InvoiceService.create, issue and void, with the ledger behind the bus),
--                  Allocation (PaymentService.allocate), Ageing (AGEING_BUCKETS and the buckets of get_ageing),
--                  Outstanding (list_outstanding, sum_outstanding, get_ageing, and
--                  recompute_ageing_task of tasks.py)
--   Inventory      backend/app/modules/inventory: Models (models.py, constants.py), Repository
--                  (repository.py), Stock (StockService of service.py, adjust_stock up to its event)
--   Assignments    backend/app/modules/assignments: the lock methods of AssignmentService
--                  (service.py), with Sweep for expire_stale_locks_task (tasks.py), over the tables of
--                  Conversations
--   Messaging      backend/app/modules/messaging: Delivery (_apply_status_update of tasks.py and what it
--                  calls), Worker (send_outbound_message_task, _handle_send_failure and
--                  reset_and_retry_message_task), on one outbound message with its pending tasks
--   Fulfilment     backend/app/modules/fulfilment: DispatchService.confirm of service.py, over the stock
--                  of Inventory and the ledger behind the bus; Orders (SOService.create and confirm,
--                  with check_credit_limit of receivables)
-- Child modules hold the proofs, named for what they are about; the modules called Tests hold
-- small runs.
--
-- A method is an `Action S A`: a function of the session that returns a result, or an error, with the
-- session as it then is. Writes before a raise are kept in that session, as in the source. Tables are
-- lists of records in the order of creation, ids are numbers from a counter (the source draws random
-- UUIDs, which are taken to be fresh), a date is a day number, a moment a second. Money is an integer
-- of ten-thousandths, the unit of the NUMERIC(19,4) columns, which round a finer amount half away from
-- zero as it is stored; a request for a journal entry has amounts in a unit of its own (`grain`), and
-- so may have more places. The native numbers have no bound, and neither does Python's Decimal at the
-- sizes that the columns hold. The clock, the calendar year of a date and the lock's time to live are
-- parameters. All loops run over lists, so no fuel is needed; the runs of a message's Celery tasks have
-- a bound of their own (Worker.Drained). Celery's decision to put a task back is a parameter, as is
-- what the Meta client returns. A worker may be lost in a run before its commit, and the task is then
-- delivered again; a second delivery behind the commit, or to two workers at once, is not modelled.
--
-- Not modelled: the HTTP layer, schemas beyond the fields that a rule reads, logging, the Redis
-- relay and the Celery wiring, which keep no state of their own; listing and report queries of
-- the modelled modules; messages of errors; and, so far, inbound messages, the other payment
-- methods of receivables, writing credit notes, and the modules payables, procurement, campaigns,
-- engagement, market, ai, analytics, contacts, auth and settings. Rows that other transactions change
-- between two statements of one method are not interleaved, except where a lost race is stated
-- over two transitions. The frontend and the migrations are no part of it.
pub mod Base
pub mod Core
pub mod Ledger
pub mod Conversations
pub mod Receivables
pub mod Inventory
pub mod Assignments
pub mod Messaging
pub mod Fulfilment

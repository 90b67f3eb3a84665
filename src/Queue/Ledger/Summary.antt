-- ===== src/Queue/Ledger/Summary.antt =====
-- core/internal/queue/ledger.go: what `dispositionFor` says of a ledger.
use agentbell.Common.{◌≡◌}
use agentbell.Queue.Types.{DeliveryLedgerEntry, DeliveryState}

abbrev pub IsSucceeded : DeliveryLedgerEntry → Type 0
IsSucceeded e = e.state ≡ DeliveryState.succeeded

abbrev pub IsDead : DeliveryLedgerEntry → Type 0
IsDead e = e.state ≡ DeliveryState.dead

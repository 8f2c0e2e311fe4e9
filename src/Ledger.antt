-- ===== src/Ledger.antt =====
-- `LedgerService` (src/ledger/ledger.service.ts). Every method runs on the caller's transaction or on
-- none, which is the same here: a rollback is the caller's `transaction`.
pub mod Frame
pub mod Posting
use arkride_backend.Common.{
  ℕ, String, Bool, true, false, Option, none, some, List, [], ◌∷◌, ◌&&◌, is_id, sum_by, get_or, leb,
}
use arkride_backend.Common.Int.{pos_part, neg_part, sub_ℕ}
use arkride_backend.Money.{Naira, Kobo, to_naira}
use arkride_backend.Entities.LedgerEntries.{
  LedgerEntry, LedgerEntryType, LedgerEntryStatus, StakeholderType, same_type, same_stakeholder,
  is_settled_or_pending, is_completed,
}
use arkride_backend.World.{
  World, Env, Action, return, throw_if, asks, modify_db, ◌>>=◌, ◌>>◌, query_failed,
}

pub record WriteLedgerEntry : Type 0 where
  pub ride_id : Option ℕ
  pub type : LedgerEntryType
  pub stakeholder_type : StakeholderType
  pub stakeholder_id : Option ℕ
  pub amount : Naira
  pub status : Option LedgerEntryStatus
  pub provider_reference : Option String

-- The sum of the amounts of some rows.
abbrev pub sum_amounts : List LedgerEntry → Kobo
sum_amounts rows =
    sub_ℕ (sum_by (λ r. pos_part r.amount) rows) (sum_by (λ r. neg_part r.amount) rows)

-- The unique index `uq_ledger_ride_type` on (rideId, type), where rideId is not null.
abbrev pub is_ride_type : ℕ → LedgerEntryType → LedgerEntry → Bool
is_ride_type ride t row = is_id row.ride_id ride && same_type row.type t

-- The WHERE clause of `sumForStakeholder`.
abbrev pub counts_for : StakeholderType → ℕ → LedgerEntryType → ℕ → ℕ → LedgerEntry → Bool
counts_for stakeholder id t from to row =
    same_stakeholder row.stakeholder_type stakeholder
    && (is_id row.stakeholder_id id
        && (same_type row.type t
            && (is_settled_or_pending row.status
                && (leb from row.created_at && leb row.created_at to))))

abbrev pub is_platform_revenue : LedgerEntry → Bool
is_platform_revenue row =
    same_stakeholder row.stakeholder_type StakeholderType.platform && is_completed row.status

abbrev settled : LedgerEntryStatus → Option (Option String) → LedgerEntry → LedgerEntry
settled status reference row = record row {
  status = status;
  provider_reference = get_or reference row.provider_reference;
}

module _ (e : Env) where
  abbrev pub violates_unique_index : Option ℕ → LedgerEntryType → List LedgerEntry → Bool
  violates_unique_index none t rows = false
  violates_unique_index (some ride) t rows = elim (e.ledger.find (is_ride_type ride t) rows) [
    | [] ↦ false
    | _ ∷ _ ↦ true
  ]

  -- `repo.create` of one entry, with the columns that the database fills in.
  abbrev pub create_row : WriteLedgerEntry → World → LedgerEntry
  create_row entry w = record {
    id = e.ledger.new_id w.db.ledger;
    ride_id = entry.ride_id;
    type = entry.type;
    stakeholder_type = entry.stakeholder_type;
    stakeholder_id = entry.stakeholder_id;
    amount = e.column entry.amount;
    status = get_or entry.status LedgerEntryStatus.completed;
    provider_reference = entry.provider_reference;
    created_at = w.now;
  }

  unfoldable pub write_entry : WriteLedgerEntry → Action LedgerEntry
  write_entry entry = do
    rows ← asks (λ w. w.db.ledger)
    throw_if (violates_unique_index entry.ride_id entry.type rows) query_failed
    row ← asks (create_row entry)
    modify_db (λ db. record db { ledger = e.ledger.save row db.ledger })
    return row

  unfoldable pub write_entries : List WriteLedgerEntry → Action (List LedgerEntry)
  write_entries [] = return []
  write_entries (entry ∷ entries) = do
    row ← write_entry entry
    rows ← write_entries entries
    return (row ∷ rows)

  abbrev settle_row :
      ℕ → LedgerEntryStatus → Option (Option String) → List LedgerEntry → List LedgerEntry
  settle_row entry_id status reference rows = elim (e.ledger.find_one entry_id rows) [
    | none ↦ rows
    | some row ↦ e.ledger.save (settled status reference row) rows
  ]

  -- `update(entryId, { status, providerReference })`; a reference that is not given is kept.
  unfoldable pub settle_entry : ℕ → LedgerEntryStatus → Option (Option String) → Action (Unit {0})
  settle_entry entry_id status reference =
      modify_db (λ db. record db { ledger = settle_row entry_id status reference db.ledger })

  unfoldable pub find_by_ride_id : ℕ → Action (List LedgerEntry)
  find_by_ride_id ride = asks (λ w. e.ledger.find (λ row. is_id row.ride_id ride) w.db.ledger)

  unfoldable pub sum_for_stakeholder : StakeholderType → ℕ → LedgerEntryType → ℕ → ℕ → Action Naira
  sum_for_stakeholder stakeholder id t from to = asks (λ w.
      to_naira (sum_amounts (e.ledger.find (counts_for stakeholder id t from to) w.db.ledger)))

  unfoldable pub get_platform_revenue : Action Naira
  get_platform_revenue =
      asks (λ w. to_naira (sum_amounts (e.ledger.find is_platform_revenue w.db.ledger)))

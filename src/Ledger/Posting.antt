-- ===== src/Ledger/Posting.antt =====
-- What posting an entry does, and the unique index on (rideId, type).
use arkride_backend.Common.{
  Option, is_id, ◌&&◌, inl, inr, Bool-cases, true, ℕ, ◌+◌, ◌≤◌, ◌≡◌, refl, Bool, false, some, List,
  [], ◌∷◌, sum_by, if◌then◌else◌, arith,
}
use arkride_backend.Common.Int.{pos_part, neg_part, ◌+ℤ◌}
use arkride_backend.Entities.LedgerEntries.{same_type, LedgerEntry, LedgerEntryType}
use arkride_backend.Ledger.{
  write_entries, WriteLedgerEntry, write_entry, create_row, is_ride_type, violates_unique_index,
  sum_amounts,
}
use arkride_backend.World.{thrown, query_failed, Env, World, returned}

module _ (e : Env) where
  -- How many entries of a type a ride has, and the sum of all its entries.
  abbrev pub entry_count : ℕ → LedgerEntryType → List LedgerEntry → ℕ
  entry_count ride t rows = sum_by (λ _. 1) (e.ledger.find (is_ride_type ride t) rows)

  count_zero : (xs : List LedgerEntry) → sum_by (λ _. 1) xs ≡ 0 → xs ≡ []
  count_zero [] h = refl
  count_zero (x ∷ xs) h = absurd (omega arith)

  pub not-violates :
      (ride : ℕ) (t : LedgerEntryType) (rows : List LedgerEntry)
      → entry_count ride t rows ≡ 0
      → violates_unique_index e (some ride) t rows ≡ false
  not-violates ride t rows h =
      ground (arith, count_zero (e.ledger.find (is_ride_type ride t) rows) h)

  violates-counted :
      (ride : ℕ) (t : LedgerEntryType) (rows : List LedgerEntry)
      → violates_unique_index e (some ride) t rows ≡ false
      → entry_count ride t rows ≡ 0
  violates-counted ride t rows h = ground arith

  -- The state after a new entry was posted.
  abbrev pub posted : WriteLedgerEntry → World → World
  posted entry w = record w {
    db = record w.db { ledger = e.ledger.save (create_row e entry w) w.db.ledger };
  }

  pub write_entry-new :
      (entry : WriteLedgerEntry) (w : World)
      → violates_unique_index e entry.ride_id entry.type w.db.ledger ≡ false
      → write_entry e entry w ≡ (returned (create_row e entry w), posted entry w)
  unfolding write_entry
  write_entry-new entry w h = rw h refl

  -- What a posting adds to a sum over the ledger.
  pub find-posted :
      (f : LedgerEntry → ℕ) (p : LedgerEntry → Bool) (entry : WriteLedgerEntry) (w : World)
      → let row = create_row e entry w in
        sum_by f (e.ledger.find p (posted entry w).db.ledger)
        ≡ sum_by f (e.ledger.find p w.db.ledger) + (if p row then f row else 0)
  find-posted f p entry w =
      e.ledger.find_insert f p (create_row e entry w) w.db.ledger
        (e.ledger.new_id_fresh w.db.ledger)

  -- A posted entry that counts adds its amount; another one adds nothing.
  pub sum_amounts-posted :
      (p : LedgerEntry → Bool) (entry : WriteLedgerEntry) (w : World)
      → sum_amounts (e.ledger.find p (posted entry w).db.ledger) ≡ (
          if p (create_row e entry w)
          then sum_amounts (e.ledger.find p w.db.ledger) +ℤ e.column entry.amount
          else sum_amounts (e.ledger.find p w.db.ledger))
  unfolding ◌+ℤ◌
  sum_amounts-posted p entry w = ground (
    arith,
    find-posted (λ r. pos_part r.amount) p entry w,
    find-posted (λ r. neg_part r.amount) p entry w,
  )

  -- The row that the index looks for.
  is_ride_type-eq :
      (o : Option ℕ) (a t : LedgerEntryType) (ride : ℕ)
      → (is_id o ride && same_type a t) ≡ true
      → (o ≡ some ride) × (a ≡ t)
  is_ride_type-eq o a t ride h = ground arith

  write_entry_violating :
      (entry : WriteLedgerEntry) (w : World)
      → violates_unique_index e entry.ride_id entry.type w.db.ledger ≡ true
      → write_entry e entry w ≡ (thrown query_failed, w)
  unfolding write_entry
  write_entry_violating entry w h = rw h refl

  counted_before :
      (o : Option ℕ) (a t : LedgerEntryType) (ride : ℕ) (rows : List LedgerEntry)
      → violates_unique_index e o a rows ≡ false
      → (is_id o ride && same_type a t) ≡ true
      → entry_count ride t rows ≡ 0
  counted_before o a t ride rows free h =
      let (p, q) = is_ride_type-eq o a t ride h in violates-counted ride t rows (rw (p, q) at free)

  -- The index: however a posting ends, no ride has two entries of one type after it, if none had
  -- before.
  pub write_entry-count :
      (entry : WriteLedgerEntry) (w : World) (ride : ℕ) (t : LedgerEntryType)
      → entry_count ride t w.db.ledger ≤ 1
      → entry_count ride t (write_entry e entry w).1.db.ledger ≤ 1
  write_entry-count entry w ride t h =
      elim (Bool-cases (violates_unique_index e entry.ride_id entry.type w.db.ledger)) [
        | inl taken ↦ rw (write_entry_violating entry w taken) h
        | inr free ↦ rw (write_entry-new entry w free) (
            ground (
              arith,
              find-posted (λ _. 1) (is_ride_type ride t) entry w,
              counted_before entry.ride_id entry.type t ride w.db.ledger free,
            ))
      ]

  pub write_entries-count :
      (entries : List WriteLedgerEntry) (w : World) (ride : ℕ) (t : LedgerEntryType)
      → entry_count ride t w.db.ledger ≤ 1
      → entry_count ride t (write_entries e entries w).1.db.ledger ≤ 1
  unfolding write_entries
  write_entries-count [] w ride t h = h
  write_entries-count (entry ∷ entries) w ride t h = ground (
    arith,
    write_entry-count entry w ride t h,
    write_entries-count entries (write_entry e entry w).1 ride t,
  )

-- ===== src/BookingChannels/Guests.antt =====
-- Callers whose numbers differ in the sign before the digits.
use arkride_backend.Common.{
  ◌≡◌, false, some, none, is_id, Option-cases, inl, inr, arith, ap, sym, ◌∙◌, refl, List, ◌∷◌, ℕ,
}
use arkride_backend.Common.Text.{Text, is_blank}
use arkride_backend.Entities.Accounts.{User}
use arkride_backend.Entities.Rides.{Location}
use arkride_backend.BookingChannels.{
  Channels, ParseAndBookDto, ParsedRideIntent, intent, else_place, guest, resolve_rider, book_for,
  parse_and_book, guest_email,
}
use arkride_backend.Users.{clashes}
use arkride_backend.World.{World, Env, returned, thrown, query_failed}

module _ (e : Env) (c : Channels) where
  guest_stored :
      (phone : Text) (u : User) (w : World)
      → e.users.find_where (λ x. is_id x.phone phone) w.db.users ≡ none
      → (resolve_rider e c (some phone) w).0 ≡ returned u
      → (u ≡ guest e c phone (e.users.new_id w.db.users))
        × (e.users.find_one u.id (resolve_rider e c (some phone) w).1.db.users ≡ some u)
  unfolding resolve_rider
  guest_stored phone u w free h =
      (ground arith, ground (arith, e.users.find_one_save u.id u w.db.users))

  guest_refused :
      (phone : Text) (u : User) (v : World)
      → is_blank phone ≡ false
      → e.users.find_where (λ x. is_id x.phone phone) v.db.users ≡ none
      → e.users.find_one u.id v.db.users ≡ some u
      → u.email ≡ c.text_of (guest_email (c.chars phone))
      → resolve_rider e c (some phone) v ≡ (thrown query_failed, v)
  unfolding resolve_rider
  guest_refused phone u v given free stored same =
      elim (Option-cases
        (e.users.find_where (clashes (guest e c phone (e.users.new_id v.db.users))) v.db.users)) [
          | inl missing ↦ absurd (
              ground (
                arith,
                e.users.find_where_none (clashes (guest e c phone (e.users.new_id v.db.users)))
                    v.db.users u.id u missing stored,
                e.users.new_id_fresh v.db.users,
              ))
          | inr (z, clash) ↦ ground arith
        ]

  -- The e-mail of a guest forgets a plus before the number.
  guest_email-plus : (phone : List ℕ) → guest_email (b'+' ∷ phone) ≡ guest_email phone
  unfolding guest_email
  guest_email-plus phone = refl

  -- A caller whose number is new, and is that of a guest with a plus before it, books nothing: once the
  -- number without the plus has its guest, every message of the other one that is understood, and both
  -- of whose places are sent or found, fails with an error of the database, and nothing is written.
  pub guest_collides :
      (p q : Text) (u : User) (dto : ParseAndBookDto) (parsed : ParsedRideIntent) (a b : Location)
      (w : World)
      → e.users.find_where (λ x. is_id x.phone p) w.db.users ≡ none
      → (resolve_rider e c (some p) w).0 ≡ returned u
      → c.chars q ≡ b'+' ∷ c.chars p
      → is_blank q ≡ false
      → e.users.find_where (λ x. is_id x.phone q) (resolve_rider e c (some p) w).1.db.users ≡ none
      → dto.caller_phone ≡ some q
      → c.parse dto.raw_text ≡ intent parsed
      → else_place dto.pickup (c.geocode parsed.pickup_text) ≡ some a
      → else_place dto.dropoff (c.geocode parsed.dropoff_text) ≡ some b
      → parse_and_book e c dto (resolve_rider e c (some p) w).1
        ≡ (thrown query_failed, (resolve_rider e c (some p) w).1)
  unfolding parse_and_book book_for
  guest_collides p q u dto parsed a b w free made plus given other caller understood from to =
      let (who, stored) = guest_stored p u w free made in
      let same : guest_email (c.chars q) ≡ guest_email (c.chars p) =
        ap guest_email plus ∙ guest_email-plus (c.chars p) in
      let email : u.email ≡ c.text_of (guest_email (c.chars q)) =
        ap (λ (x : User). x.email) who ∙ ap c.text_of (sym same) in
      let refused = guest_refused q u (resolve_rider e c (some p) w).1 given other stored email in
      ground (arith, understood, from, to, caller, refused)

-- ===== src/Auth/Tokens/Race.antt =====
-- Two requests that present the same token at the same time: both read the row before either claims
-- it.
use mathlib.Core.Path.{subst}
use arkride_backend.Common.{
  ℕ, ◌≡◌, ◌∙◌, ◌≤◌, ◌&&◌, true, Bool, some, is_some, Option-cases, inl, inr, ap, List, bit,
  sum_by-cong, sum_by-zero, ◌==◌, arith, Bool-cases, false, sum_by_mono, if◌then◌else◌,
}
use arkride_backend.Entities.Tokens.{RefreshToken, rotated, reuse_detected, RevokedReason}
use arkride_backend.Auth.Tokens.Queries.{count}
use arkride_backend.Auth.Tokens.Families.{
  live_count, breach_count, size, revoke_family-live, revoke_family-breach, revoke_family-returned,
}
use arkride_backend.Auth.Tokens.{
  AuthEnv, minted, SessionSubject, SessionTokens, is_live, in_family, is_breach, revoke,
  revoke_family, update_where, claim, renew, mint, mint_unless_breached, restamp,
}
use arkride_backend.World.{World, Outcome, returned, thrown, unauthorized}

module _ (e : AuthEnv) where
  -- No row is left that the same claim would change.
  claimed-live :
      (i now : ℕ) (rows : List RefreshToken)
      → count
          (λ t. t.id == i && is_live t)
          (e.table.update (λ t. t.id == i && is_live t) (revoke now rotated) rows).0
        ≡ 0
  claimed-live i now rows =
      e.table.update_rows (λ t. bit (t.id == i && is_live t)) (λ t. t.id == i && is_live t)
        (revoke now rotated) rows
      ∙ sum_by-zero _ rows (λ t. ground arith)

  claimed-size :
      (i now family : ℕ) (rows : List RefreshToken)
      → count
          (in_family family)
          (e.table.update (λ t. t.id == i && is_live t) (revoke now rotated) rows).0
        ≡ count (in_family family) rows
  claimed-size i now family rows =
      e.table.update_rows (λ t. bit (in_family family t)) (λ t. t.id == i && is_live t)
        (revoke now rotated) rows
      ∙ sum_by-cong _ _ rows (λ t. ground arith)

  -- A claim of a token that is no longer live.
  claim_spent :
      (s : RefreshToken) (w : World)
      → count (λ t. t.id == s.id && is_live t) w.db.refresh_tokens ≡ 0
      → claim e s w ≡ (
        thrown unauthorized,
        (revoke_family e s.family_id reuse_detected
            (update_where e (λ t. t.id == s.id && is_live t) (revoke w.now rotated) w).1).1,
      )
  unfolding claim
  claim_spent s w h = ground (
    arith,
    e.table.update_affected (λ t. t.id == s.id && is_live t) (revoke w.now rotated)
        w.db.refresh_tokens,
    revoke_family-returned e s.family_id reuse_detected
        (update_where e (λ t. t.id == s.id && is_live t) (revoke w.now rotated) w).1,
  )

  -- The mark of a breach is found, also beside the token that was just minted.
  breach_found :
      (family : ℕ) (t : RefreshToken) (rows : List RefreshToken)
      → 1 ≤ count (λ t. in_family family t && is_breach t.revoked_reason) rows
      → is_some (
          e.table.find_one
            (λ t. in_family family t && is_breach t.revoked_reason)
            (e.table.insert t rows))
        ≡ true
  breach_found family t rows h =
      let p : RefreshToken → Bool = λ t. in_family family t && is_breach t.revoked_reason in
      elim (Option-cases (e.table.find_one p (e.table.insert t rows))) [
        | inl none_found ↦ absurd (
            omega (
              arith,
              e.table.find_one_none p (e.table.insert t rows) none_found,
              e.table.insert_rows (λ t. bit (p t)) t rows,
            ))
        | inr (s, found) ↦ ap is_some found
      ]

  renew_breached :
      (subject : SessionSubject) (family : ℕ) (w : World)
      → 1 ≤ breach_count family w
      → renew e subject family w
        ≡ (thrown unauthorized, (revoke_family e family reuse_detected w).1)
  unfolding renew mint_unless_breached mint
  renew_breached subject family w h = ground (
    arith,
    breach_found family (minted e subject family w) w.db.refresh_tokens h,
    revoke_family-returned e family reuse_detected w,
  )

  pub claim_won :
      (s : RefreshToken) (w : World)
      → (claim e s w).0 ≡ returned tt
      → claim e s w ≡ (
        returned tt,
        (update_where e (λ t. t.id == s.id && is_live t) (revoke w.now rotated) w).1,
      )
  unfolding claim
  claim_won s w won = ground (
    arith,
    revoke_family-returned e s.family_id reuse_detected
        (update_where e (λ t. t.id == s.id && is_live t) (revoke w.now rotated) w).1,
  )

  -- A claim that follows one that won.
  claim_twice :
      (s : RefreshToken) (w : World)
      → (claim e s w).0 ≡ returned tt
      → ((claim e s (claim e s w).1).0 ≡ thrown unauthorized)
        × (breach_count s.family_id (claim e s (claim e s w).1).1 ≡ size s.family_id w)
  claim_twice s w won =
      let v = (update_where e (λ t. t.id == s.id && is_live t) (revoke w.now rotated) w).1 in
      let u = (update_where e (λ t. t.id == s.id && is_live t) (revoke w.now rotated) v).1 in
      let second : claim e s (claim e s w).1
          ≡ (thrown unauthorized, (revoke_family e s.family_id reuse_detected u).1) =
        ap (λ (r : Outcome (Unit {0}) × World). claim e s r.1) (claim_won s w won)
        ∙ claim_spent s v (claimed-live s.id w.now w.db.refresh_tokens) in
      (
        ap (λ (r : Outcome (Unit {0}) × World). r.0) second,
        ap (λ (r : Outcome (Unit {0}) × World). breach_count s.family_id r.1) second
            ∙ revoke_family-breach e s.family_id u
            ∙ claimed-size s.id w.now s.family_id v.db.refresh_tokens
            ∙ claimed-size s.id w.now s.family_id w.db.refresh_tokens,
      )

  -- After a claim a row that is minted has an id of its own.
  minted-other :
      (s : RefreshToken) (p : RefreshToken → Bool) (now : ℕ) (rows : List RefreshToken)
      → e.table.find_one p rows ≡ some s
      → (e.table.new_id
            (e.table.update (λ t. t.id == s.id && is_live t) (revoke now rotated) rows).0
          == s.id)
        ≡ false
  minted-other s p now rows found =
      let claimed = (e.table.update (λ t. t.id == s.id && is_live t) (revoke now rotated) rows).0 in
      let here : 1 ≤ count (λ t. t.id == s.id) rows =
        ground (arith, (e.table.find_one_some p rows s found).1 (λ t. bit (t.id == s.id))) in
      let kept : count (λ t. t.id == s.id) claimed ≡ count (λ t. t.id == s.id) rows =
        e.table.update_rows (λ t. bit (t.id == s.id)) (λ t. t.id == s.id && is_live t)
          (revoke now rotated) rows
        ∙ sum_by-cong _ _ rows (λ t. ground arith) in
      elim (Bool-cases (e.table.new_id claimed == s.id)) [
        | inr other ↦ other
        | inl same ↦
            let is_new : e.table.new_id claimed ≡ s.id = ground arith in
            absurd (
              omega (
                arith,
                here,
                kept,
                subst (λ (k : ℕ). count (λ t. t.id == k) claimed ≡ 0) is_new
                    (e.table.new_id_fresh claimed),
              ))
      ]

  -- A revocation brings no row back.
  revoked-spent :
      (i : ℕ) (p : RefreshToken → Bool) (now : ℕ) (reason : RevokedReason)
      (rows : List RefreshToken)
      → count (λ t. t.id == i && is_live t) rows ≡ 0
      → count (λ t. t.id == i && is_live t) (e.table.update p (revoke now reason) rows).0 ≡ 0
  revoked-spent i p now reason rows h =
      let fewer =
        sum_by_mono
          (λ t.
            if p t
            then bit ((revoke now reason t).id == i && is_live (revoke now reason t))
            else bit (t.id == i && is_live t))
          (λ t. bit (t.id == i && is_live t)) rows (λ t. ground arith) in
      omega (
        arith,
        h,
        fewer,
        e.table.update_rows (λ t. bit (t.id == i && is_live t)) p (revoke now reason) rows,
      )

  stamped-spent :
      (i : ℕ) (p : RefreshToken → Bool) (reason : RevokedReason) (rows : List RefreshToken)
      → count (λ t. t.id == i && is_live t) (e.table.update p (restamp reason) rows).0
        ≡ count (λ t. t.id == i && is_live t) rows
  stamped-spent i p reason rows =
      e.table.update_rows (λ t. bit (t.id == i && is_live t)) p (restamp reason) rows
      ∙ sum_by-cong _ _ rows (λ t. ground arith)

  revoke_family-spent :
      (i family : ℕ) (w : World)
      → count (λ t. t.id == i && is_live t) w.db.refresh_tokens ≡ 0
      → count
          (λ t. t.id == i && is_live t)
          (revoke_family e family reuse_detected w).1.db.refresh_tokens
        ≡ 0
  unfolding revoke_family
  revoke_family-spent i family w h =
      stamped-spent i (in_family family) reuse_detected
        (e.table.update (λ t. in_family family t && is_live t) (revoke w.now reuse_detected)
          w.db.refresh_tokens).0
      ∙ revoked-spent i (λ t. in_family family t && is_live t) w.now reuse_detected
          w.db.refresh_tokens h

  -- The minting, however it ends, leaves a token that was exchanged as it is.
  renew-spent :
      (i family : ℕ) (subject : SessionSubject) (w : World)
      → count (λ t. t.id == i && is_live t) w.db.refresh_tokens ≡ 0
      → (e.table.new_id w.db.refresh_tokens == i) ≡ false
      → count (λ t. t.id == i && is_live t) (renew e subject family w).1.db.refresh_tokens ≡ 0
  unfolding renew mint_unless_breached mint
  renew-spent i family subject w h other = ground (
    arith,
    revoke_family-spent i family w h,
    e.table.insert_rows (λ t. bit (t.id == i && is_live t)) (minted e subject family w)
        w.db.refresh_tokens,
  )

  claimed_late :
      (s : RefreshToken) (p : RefreshToken → Bool) (subject : SessionSubject) (w : World)
      → e.table.find_one p w.db.refresh_tokens ≡ some s
      → (claim e s w).0 ≡ returned tt
      → let late = (renew e subject s.family_id (claim e s w).1).1 in
        ((claim e s late).0 ≡ thrown unauthorized) × (live_count s.family_id (claim e s late).1 ≡ 0)
  claimed_late s p subject w found won =
      let v = (update_where e (λ t. t.id == s.id && is_live t) (revoke w.now rotated) w).1 in
      let late = (renew e subject s.family_id v).1 in
      let spent = claim_spent s late (
        renew-spent s.id s.family_id subject v (claimed-live s.id w.now w.db.refresh_tokens)
          (minted-other s p w.now w.db.refresh_tokens found)) in
      let ends : claim e s (renew e subject s.family_id (claim e s w).1).1 ≡ (
        thrown unauthorized,
        (revoke_family e s.family_id reuse_detected
            (update_where e (λ t. t.id == s.id && is_live t) (revoke late.now rotated) late).1).1,
      ) =
        ap (λ (r : Outcome (Unit {0}) × World). claim e s (renew e subject s.family_id r.1).1)
          (claim_won s w won)
        ∙ spent in
      (
        ap (λ (r : Outcome (Unit {0}) × World). r.0) ends,
        ap (λ (r : Outcome (Unit {0}) × World). live_count s.family_id r.1) ends
            ∙ revoke_family-live e s.family_id reuse_detected
                (update_where e (λ t. t.id == s.id && is_live t) (revoke late.now rotated) late).1,
      )

  -- A stored token, which one request has claimed, is claimed by another that had read it as live. In
  -- either order the other is refused, and in the end no token of the family can be exchanged. If it
  -- claims before the first mints, then the first gets no session either, whoever the subject is. If it
  -- claims after that, the token that the first may have got is revoked.
  pub claim_race :
      (s : RefreshToken) (p : RefreshToken → Bool) (subject : SessionSubject) (w : World)
      → e.table.find_one p w.db.refresh_tokens ≡ some s
      → (claim e s w).0 ≡ returned tt
      → let (answer, both) = claim e s (claim e s w).1 in
        let late = (renew e subject s.family_id (claim e s w).1).1 in
        ((answer ≡ thrown unauthorized)
          × ((renew e subject s.family_id both).0 ≡ thrown unauthorized)
          × (live_count s.family_id (renew e subject s.family_id both).1 ≡ 0))
        × (((claim e s late).0 ≡ thrown unauthorized)
            × (live_count s.family_id (claim e s late).1 ≡ 0))
  claim_race s p subject w found won =
      let (answer, marked) = claim_twice s w won in
      let both = (claim e s (claim e s w).1).1 in
      let stored : 1 ≤ size s.family_id w = ground (
        arith,
        (e.table.find_one_some p w.db.refresh_tokens s found).1
            (λ t. bit (in_family s.family_id t)),
      ) in
      let last = renew_breached subject s.family_id both (omega arith) in
      (
        (
          answer,
          ap (λ (r : Outcome SessionTokens × World). r.0) last,
          ap (λ (r : Outcome SessionTokens × World). live_count s.family_id r.1) last
              ∙ revoke_family-live e s.family_id reuse_detected both,
        ),
        claimed_late s p subject w found won,
      )

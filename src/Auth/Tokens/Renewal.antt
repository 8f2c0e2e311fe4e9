-- ===== src/Auth/Tokens/Renewal.antt =====
-- The owner of a live token gets a session for it; pruning takes no usable token away.
use arkride_backend.Common.{
  ℕ, ◌+◌, ◌*◌, ◌≤◌, ◌<◌, ◌≡◌, ◌∙◌, ◌&&◌, ap, refl, Bool, Option, some, none, if◌then◌else◌, inl,
  inr, Option-cases, List, bit, leb, ltb, sum_by-cong, sum_by_mono, ◌==◌, arith,
}
use arkride_backend.Entities.Tokens.{RefreshToken, rotated}
use arkride_backend.Entities.Accounts.{Role}
use arkride_backend.Auth.Tokens.Queries.{count}
use arkride_backend.Auth.Tokens.Families.{live_count, breach_count}
use arkride_backend.Auth.Tokens.Chain.{mint-live}
use arkride_backend.Auth.Tokens.{
  AuthEnv, SessionSubject, SessionTokens, is_live, in_family, is_breach, revoke, update_where,
  present, claim, minted, mint, mint_unless_breached, renew, rotate, prune_expired,
}
use arkride_backend.World.{World, Db, Outcome, returned}

module _ (e : AuthEnv) where
  -- No row bears the mark of a breach, so none is found.
  breach_absent :
      (family : ℕ) (rows : List RefreshToken)
      → count (λ t. in_family family t && is_breach t.revoked_reason) rows ≡ 0
      → e.table.find_one (λ t. in_family family t && is_breach t.revoked_reason) rows ≡ none
  breach_absent family rows h =
      let p : RefreshToken → Bool = λ t. in_family family t && is_breach t.revoked_reason in
      elim (Option-cases (e.table.find_one p rows)) [
        | inl missing ↦ missing
        | inr (t, found) ↦
            let (passes, counts) = e.table.find_one_some p rows t found in
            absurd (ground (arith, passes, counts (λ t. bit (p t))))
      ]

  minted-breach :
      (subject : SessionSubject) (family : ℕ) (w : World)
      → breach_count family (mint e subject family w).1 ≡ breach_count family w
  unfolding mint
  minted-breach subject family w =
      e.table.insert_rows (λ t. bit (in_family family t && is_breach t.revoked_reason))
        (minted e subject family w) w.db.refresh_tokens
      ∙ ground arith

  claimed-breach :
      (i now family : ℕ) (rows : List RefreshToken)
      → count (λ t. in_family family t && is_breach t.revoked_reason) rows ≡ 0
      → count
          (λ t. in_family family t && is_breach t.revoked_reason)
          (e.table.update (λ t. t.id == i && is_live t) (revoke now rotated) rows).0
        ≡ 0
  claimed-breach i now family rows h =
      let test : RefreshToken → Bool = λ t. t.id == i && is_live t in
      let breached : RefreshToken → Bool = λ t. in_family family t && is_breach t.revoked_reason in
      let fewer =
        sum_by_mono
          (λ t. if test t then bit (breached (revoke now rotated t)) else bit (breached t))
          (λ t. bit (breached t)) rows (λ t. ground arith) in
      omega (
        arith,
        h,
        fewer,
        e.table.update_rows (λ t. bit (breached t)) test (revoke now rotated) rows,
      )

  pub claim_wins :
      (s : RefreshToken) (p : RefreshToken → Bool) (w : World)
      → e.table.find_one p w.db.refresh_tokens ≡ some s
      → s.revoked_at ≡ none
      → claim e s w ≡ (
        returned tt,
        (update_where e (λ t. t.id == s.id && is_live t) (revoke w.now rotated) w).1,
      )
  unfolding claim
  claim_wins s p w found live = ground (
    arith,
    e.table.update_affected (λ t. t.id == s.id && is_live t) (revoke w.now rotated)
        w.db.refresh_tokens,
    (e.table.find_one_some p w.db.refresh_tokens s found).1 (λ t. bit (t.id == s.id && is_live t)),
  )

  renew_clean :
      (subject : SessionSubject) (family : ℕ) (w : World)
      → breach_count family w ≡ 0
      → renew e subject family w ≡ mint e subject family w
  unfolding renew mint_unless_breached mint
  renew_clean subject family w h = ground (
    arith,
    breach_absent family (mint e subject family w).1.db.refresh_tokens,
    minted-breach subject family w,
  )

  -- The state after a claim that won: the token is exchanged, and nothing else has changed.
  abbrev pub claimed_world : RefreshToken → World → World
  claimed_world s w = (update_where e (λ t. t.id == s.id && is_live t) (revoke w.now rotated) w).1

  module _ (token : ℕ) (resolve : Db → ℕ → Role → Option SessionSubject) (s : RefreshToken)
      (subject : SessionSubject) (w : World)
      (found : e.table.find_one (λ t. t.token_hash == e.hash_token token) w.db.refresh_tokens
        ≡ some s)
      (live : s.revoked_at ≡ none) (fresh : w.now < s.expires_at)
      (clean : breach_count s.family_id w ≡ 0)
      (known : resolve (claimed_world s w).db s.subject_id s.subject_type ≡ some subject) where
    abbrev claimed : World
    claimed = claimed_world s w

    rotate_mints : rotate e token resolve w ≡ mint e subject s.family_id claimed
    unfolding rotate present
    rotate_mints = ground (
      arith,
      claim_wins s (λ t. t.token_hash == e.hash_token token) w found live,
      known,
      renew_clean subject s.family_id claimed
          (claimed-breach s.id w.now s.family_id w.db.refresh_tokens clean),
    )

    -- A stored token that is live and not expired, of a family without the mark of a breach, whose
    -- subject is still there, is exchanged for a session of that subject, and the family then holds a
    -- token that can be exchanged.
    pub rotate-returned :
        ((session : SessionTokens) × ((rotate e token resolve w).0 ≡ returned session)
          × (session.access_token ≡ e.sign subject))
        × (1 ≤ live_count s.family_id (rotate e token resolve w).1)
    unfolding mint
    rotate-returned = (
      (
        record {
          access_token = e.sign subject;
          refresh_token = e.random_bytes claimed;
          expires_in = 3600;
        },
        ap (λ (r : Outcome SessionTokens × World). r.0) rotate_mints,
        refl,
      ),
      ground (arith, rotate_mints, mint-live e s.family_id subject s.family_id claimed),
    )

  -- Pruning takes away no token that is not expired: of those, as many pass any test as before.
  pub prune_expired-count :
      (p : RefreshToken → Bool) (grace_days : ℕ) (w : World)
      → count
          (λ t. p t && leb w.now t.expires_at)
          (prune_expired e grace_days w).1.db.refresh_tokens
        ≡ count (λ t. p t && leb w.now t.expires_at) w.db.refresh_tokens
  unfolding prune_expired
  prune_expired-count p grace_days w =
      e.table.delete_rows (λ t. bit (p t && leb w.now t.expires_at))
        (λ t. ltb (t.expires_at + grace_days * 86_400_000) w.now) w.db.refresh_tokens
      ∙ sum_by-cong _ _ w.db.refresh_tokens (λ t. ground arith)

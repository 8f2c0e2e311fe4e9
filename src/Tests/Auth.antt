-- ===== src/Tests/Auth.antt =====
-- A replayed token, and a token claimed twice.
use arkride_backend.Common.{◌≡◌, refl, some, ◌==◌}
use arkride_backend.Auth.Tokens.{rotate, claim, renew}
use arkride_backend.Auth.Tokens.Families.{live_count, rotate_replay}
use arkride_backend.Auth.Tokens.Race.{claim_race}
use arkride_backend.World.{thrown, unauthorized}
use arkride_backend.Sample.Data.{old_token, new_token, signed_in, subject}
use arkride_backend.Sample.Tokens.{tokens}

rotate_replay_example :
    ((rotate tokens 1 (λ db i r. some subject) signed_in).0 ≡ thrown unauthorized)
    × (live_count 9 (rotate tokens 1 (λ db i r. some subject) signed_in).1 ≡ 0)
rotate_replay_example =
    rotate_replay tokens 1 (λ db i r. some subject) old_token signed_in {at = 45} refl refl refl

claim_race_example :
    let (answer, both) = claim tokens new_token (claim tokens new_token signed_in).1 in
    let late = (renew tokens subject 9 (claim tokens new_token signed_in).1).1 in
    ((answer ≡ thrown unauthorized)
      × ((renew tokens subject 9 both).0 ≡ thrown unauthorized)
      × (live_count 9 (renew tokens subject 9 both).1 ≡ 0))
    × (((claim tokens new_token late).0 ≡ thrown unauthorized)
        × (live_count 9 (claim tokens new_token late).1 ≡ 0))
unfolding claim
claim_race_example = claim_race tokens new_token (λ t. t.id == 2) subject signed_in refl refl

-- ===== src/Peer/Epoch/Examples.antt =====
-- Tests of the retired lists and the generators, and the theorems at concrete values.
use sangtachi.Prelude.{◌≡◌, refl, ◌↔◌, any, true, false, some, [], ◌∷◌}
use sangtachi.Peer.Epoch.{
  RetiredEpochs, RetiredNonces, starved, generate_attempt_nonce, expired, contains, value,
  generate_session_epoch,
}
use sangtachi.Peer.Epoch.Generate.{fresh_for, generate_attempt_nonce-starved}

abbrev one_nonce : RetiredNonces
one_nonce = record { nonce = 1 ∷ []; retired_at = 0 } ∷ []

abbrev two_epochs : RetiredEpochs
two_epochs = record { epoch = 5; retired_at = 100 } ∷ record { epoch = 6; retired_at = 200 } ∷ []

expires_at_two_minutes :
    (contains two_epochs 5 120099 ≡ true) × (contains two_epochs 5 120100 ≡ false)
unfolding contains expired
expires_at_two_minutes = (refl, refl)

skips_zero :
    generate_session_epoch (some (0 ∷ 0 ∷ 0 ∷ 0 ∷ []) ∷ some (0 ∷ 0 ∷ 1 ∷ 2 ∷ []) ∷ [])
    ≡ value 258 []
unfolding generate_session_epoch
skips_zero = refl

generate_attempt_nonce-starved_example :
    (generate_attempt_nonce one_nonce 10 (some (1 ∷ []) ∷ []) ≡ starved)
    ↔ (any (fresh_for one_nonce 10) (some (1 ∷ []) ∷ []) ≡ false)
generate_attempt_nonce-starved_example =
    generate_attempt_nonce-starved one_nonce 10 (some (1 ∷ []) ∷ [])

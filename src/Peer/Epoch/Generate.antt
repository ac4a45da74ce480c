-- ===== src/Peer/Epoch/Generate.antt =====
-- The generators: what they return, and that they return as soon as the source allows it.
use sangtachi.Prelude.{
  ℕ, ◌≡◌, ◌≢◌, ◌↔◌, Bool, true, false, not, List, [], ◌∷◌, ◌==◌, any, arith, Option, none, some,
}
use sangtachi.Peer.Epoch.{
  RetiredNonces, contains_nonce, value, starved, epoch_of, generate_session_epoch,
  generate_attempt_nonce,
}

-- The random source fails, or gives four bytes that are not all zero.
abbrev pub settles : Option (List ℕ) → Bool
settles none = true
settles (some bytes) = not (epoch_of bytes == 0)

-- A session epoch that is drawn is not 0.
pub generate_session_epoch-ne_zero :
    (answers : List (Option (List ℕ))) (v : ℕ) (rest : List (Option (List ℕ)))
    → generate_session_epoch answers ≡ value v rest
    → v ≢ 0
unfolding generate_session_epoch
generate_session_epoch-ne_zero [] v rest e = cc
generate_session_epoch-ne_zero (none ∷ answers) v rest e = cc
generate_session_epoch-ne_zero (some bytes ∷ answers) v rest e =
    ground (arith, generate_session_epoch-ne_zero answers v rest)

-- The loop that draws a session epoch comes to an end exactly if one of the answers is a failure or
-- not zero.
pub generate_session_epoch-starved :
    (answers : List (Option (List ℕ)))
    → (generate_session_epoch answers ≡ starved) ↔ (any settles answers ≡ false)
unfolding generate_session_epoch
generate_session_epoch-starved [] = ground arith
generate_session_epoch-starved (none ∷ answers) = ground arith
generate_session_epoch-starved (some bytes ∷ answers) =
    ground (arith, generate_session_epoch-starved answers)

abbrev pub fresh_for : RetiredNonces → ℕ → Option (List ℕ) → Bool
fresh_for retired now none = true
fresh_for retired now (some nonce) = not (contains_nonce retired nonce now)

-- The loop that draws the nonce of an attempt comes to an end exactly if one of the answers is a
-- failure or a nonce that is not retired.
pub generate_attempt_nonce-starved :
    (retired : RetiredNonces) (now : ℕ) (answers : List (Option (List ℕ)))
    → (generate_attempt_nonce retired now answers ≡ starved)
      ↔ (any (fresh_for retired now) answers ≡ false)
unfolding generate_attempt_nonce
generate_attempt_nonce-starved retired now [] = ground arith
generate_attempt_nonce-starved retired now (none ∷ answers) = ground arith
generate_attempt_nonce-starved retired now (some nonce ∷ answers) =
    ground (arith, generate_attempt_nonce-starved retired now answers)

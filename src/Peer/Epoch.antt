-- ===== src/Peer/Epoch.antt =====
-- client/src/peer/epoch.cpp and client/include/sangtachi/peer/epoch.hpp: session epochs, nonces and
-- the lists of those that are no longer valid. The random source is the list of its answers, `none`
-- for a draw that fails.
pub mod Retired
pub mod Generate
mod Examples
use sangtachi.Prelude.{
  ℕ, ◌+◌, ◌-◌, Bool, true, false, not, ◌&&◌, Option, none, some, List, [], ◌∷◌, ◌++◌, ltb, leb,
  ◌==◌, if◌then◌else◌, length, any, erase_if, get_or, bit_or,
}
use sangtachi.Prelude.Bits.{◌<<<◌}
use sangtachi.Protocol.{max_retired_epochs, retired_epoch_ttl_ms, retired_nonce_ttl_ms}

pub expired : ℕ → ℕ → ℕ → Bool
expired retired_at ttl now = leb retired_at now && leb ttl (now - retired_at)

pub record Entry : Type 0 where
  pub epoch : ℕ
  pub retired_at : ℕ

-- `RetiredEpochs::entries_`, oldest first.
abbrev pub RetiredEpochs : Type 0
RetiredEpochs = List Entry

pub expire : RetiredEpochs → ℕ → RetiredEpochs
unfolding expired
expire es now = erase_if (λ e. expired e.retired_at retired_epoch_ttl_ms now) es

-- `find_if` and `erase`: the first entry of that epoch goes.
abbrev pub erase_epoch : ℕ → RetiredEpochs → RetiredEpochs
erase_epoch epoch [] = []
erase_epoch epoch (e ∷ es) = if e.epoch == epoch then es else e ∷ erase_epoch epoch es

-- `while (size >= kMaxRetiredEpochs) pop_front()`.
abbrev pub pop_to_room : RetiredEpochs → RetiredEpochs
pop_to_room [] = []
pop_to_room (e ∷ es) = if leb max_retired_epochs (length (e ∷ es)) then pop_to_room es else e ∷ es

pub add : RetiredEpochs → ℕ → ℕ → RetiredEpochs
add es epoch now =
    pop_to_room (erase_epoch epoch (expire es now))
    ++ (record { epoch = epoch; retired_at = now } ∷ [])

pub contains : RetiredEpochs → ℕ → ℕ → Bool
contains es epoch now =
    any (λ e. (e.epoch == epoch) && not (expired e.retired_at retired_epoch_ttl_ms now)) es

-- `Nonce::bytes`.
abbrev pub Nonce : Type 0
Nonce = List ℕ

abbrev pub nonce_eq : Nonce → Nonce → Bool
nonce_eq [] [] = true
nonce_eq (a ∷ as_) (b ∷ bs) = (a == b) && nonce_eq as_ bs
nonce_eq _ _ = false

pub record NonceEntry : Type 0 where
  pub nonce : Nonce
  pub retired_at : ℕ

abbrev pub RetiredNonces : Type 0
RetiredNonces = List NonceEntry

pub expire_nonces : RetiredNonces → ℕ → RetiredNonces
expire_nonces es now = erase_if (λ e. expired e.retired_at retired_nonce_ttl_ms now) es

pub add_nonce : RetiredNonces → Nonce → ℕ → RetiredNonces
add_nonce es nonce now = expire_nonces es now ++ (record { nonce = nonce; retired_at = now } ∷ [])

pub contains_nonce : RetiredNonces → Nonce → ℕ → Bool
contains_nonce es nonce now =
    any (λ e. nonce_eq e.nonce nonce && not (expired e.retired_at retired_nonce_ttl_ms now)) es

-- What a generator comes to: a value and the answers that are left, a failed draw, or a list of
-- answers that is too short.
pub data Drawn (A : Type 0) : Type 0 where
  value : A → List (Option (List ℕ)) → Drawn A
  failed : List (Option (List ℕ)) → Drawn A
  starved : Drawn A

-- Four bytes, the first the highest.
abbrev pub epoch_of : List ℕ → ℕ
epoch_of bytes =
    bit_or
      (bit_or (bit_or (get_or bytes 0 0 <<< 24) (get_or bytes 1 0 <<< 16)) (get_or bytes 2 0 <<< 8))
      (get_or bytes 3 0)

pub generate_session_epoch : List (Option (List ℕ)) → Drawn ℕ
generate_session_epoch [] = starved
generate_session_epoch (none ∷ answers) = failed answers
generate_session_epoch (some bytes ∷ answers) =
    let again = generate_session_epoch answers in
    if not (epoch_of bytes == 0) then value (epoch_of bytes) answers else again

pub generate_attempt_nonce : RetiredNonces → ℕ → List (Option (List ℕ)) → Drawn Nonce
generate_attempt_nonce retired now [] = starved
generate_attempt_nonce retired now (none ∷ answers) = failed answers
generate_attempt_nonce retired now (some nonce ∷ answers) =
    let again = generate_attempt_nonce retired now answers in
    if not (contains_nonce retired nonce now) then value nonce answers else again

pub generate_probe_nonce : List (Option (List ℕ)) → Drawn Nonce
generate_probe_nonce [] = starved
generate_probe_nonce (none ∷ answers) = failed answers
generate_probe_nonce (some nonce ∷ answers) = value nonce answers

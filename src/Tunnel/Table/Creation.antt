-- ===== src/Tunnel/Table/Creation.antt =====
-- `Tunnel::create_session`: the guards, the registration of what has ended, and the new session.
use sangtachi.Prelude.{
  ℕ, Bool, true, false, not, ◌&&◌, ◌||◌, Option, none, some, List, [], ◌∷◌, ◌==◌, if◌then◌else◌,
}
use sangtachi.Network.Endpoint.{Endpoint}
use sangtachi.Peer.Epoch.{
  Nonce, RetiredEpochs, RetiredNonces, add, add_nonce, Drawn, value, failed, starved,
  generate_session_epoch, generate_attempt_nonce,
}
use sangtachi.Peer.Session.State.{SessionConfig, SessionIo, new_session, active}
use sangtachi.Tunnel.Router.{route_index, assign, lookup}
use sangtachi.Tunnel.Table.{Entry, Tunnel, find_entry, put_entry}

-- What a new session is made from (`NewSession`).
pub record NewSession : Type 0 where
  pub local_peer_id : ℕ
  pub local_virtual_ip : ℕ
  pub peer_id : ℕ
  pub peer_virtual_ip : ℕ
  pub candidates : List Endpoint
  pub peer_is_host : Bool

abbrev pub is_active_entry : Option Entry → Bool
is_active_entry none = false
is_active_entry (some e) = active e.session

abbrev pub is_null : Option ℕ → Bool
is_null none = true
is_null (some _) = false

-- The guards in front of any change.
abbrev pub is_creatable : NewSession → Tunnel → Bool
is_creatable request t =
    not (is_active_entry (find_entry request.peer_id t.sessions))
    && not (is_null (route_index request.peer_virtual_ip))
    && not (request.peer_virtual_ip == request.local_virtual_ip)
    && is_null (lookup t.routes request.peer_virtual_ip)

-- The pinned epochs of the sessions that have ended and have not registered it.
unfoldable pub retire_epochs : List Entry → ℕ → RetiredEpochs → RetiredEpochs
retire_epochs [] now retired = retired
retire_epochs (e ∷ es) now retired = retire_epochs es now (elim e.session.pinned [
  | none ↦ retired
  | some epoch ↦ if active e.session || e.epoch_retired then retired else add retired epoch now
])

unfoldable pub retire_nonces : List Entry → ℕ → RetiredNonces → RetiredNonces
retire_nonces [] now retired = retired
retire_nonces (e ∷ es) now retired = retire_nonces es now (
    if active e.session || e.nonce_retired
    then retired
    else add_nonce retired e.session.config.attempt_nonce now)

abbrev pub add_ended : List Nonce → ℕ → RetiredNonces → RetiredNonces
add_ended [] now retired = retired
add_ended (n ∷ ns) now retired = add_ended ns now (add_nonce retired n now)

abbrev pub registered_entry : Entry → Entry
registered_entry e =
    if active e.session then e else record e { epoch_retired = true; nonce_retired = true }

abbrev pub registered_entries : List Entry → List Entry
registered_entries [] = []
registered_entries (e ∷ es) = registered_entry e ∷ registered_entries es

-- The registration of what the sessions that have ended leave behind.
unfoldable pub register_ended : ℕ → Tunnel → Tunnel
register_ended now t = record t {
  retired = retire_epochs t.sessions now t.retired;
  retired_nonces = add_ended t.ended_nonces now (retire_nonces t.sessions now t.retired_nonces);
  sessions = registered_entries t.sessions;
  ended_nonces = [];
}

unfoldable pub install_session : NewSession → SessionIo → ℕ → ℕ → Nonce → Tunnel → Tunnel
install_session request io now epoch nonce t =
    let config : SessionConfig = record {
      local_peer_id = request.local_peer_id;
      local_virtual_ip = request.local_virtual_ip;
      peer_id = request.peer_id;
      peer_virtual_ip = request.peer_virtual_ip;
      candidates = request.candidates;
      peer_is_host = request.peer_is_host;
      local_epoch = epoch;
      attempt_nonce = nonce;
    } in
    record t {
      sessions =
          put_entry
            (record {
              peer_id = request.peer_id;
              session = new_session config t.retired now;
              io = io;
              epoch_retired = false;
              nonce_retired = false;
            })
            t.sessions;
      routes = (assign t.routes request.peer_virtual_ip request.peer_id).1;
      local_vip = some request.local_virtual_ip;
    }

abbrev pub with_nonce : NewSession → SessionIo → ℕ → ℕ → Drawn Nonce → Tunnel → Option ℕ × Tunnel
with_nonce request io now epoch (value nonce _) t =
    (some request.peer_id, install_session request io now epoch nonce t)
with_nonce request io now epoch (failed _) t = (none, t)
with_nonce request io now epoch starved t = (none, t)

abbrev pub with_epoch : NewSession → SessionIo → ℕ → Drawn ℕ → Tunnel → Option ℕ × Tunnel
with_epoch request io now (value epoch answers) t =
    with_nonce request io now epoch (generate_attempt_nonce t.retired_nonces now answers) t
with_epoch request io now (failed _) t = (none, t)
with_epoch request io now starved t = (none, t)

-- The answers of the random source are `answers`; the result is the session, `none` for a null
-- pointer.
unfoldable pub create_session :
    NewSession → SessionIo → List (Option (List ℕ)) → ℕ → Tunnel → Option ℕ × Tunnel
create_session request io answers now t =
    if not (is_creatable request t)
    then (none, t)
    else with_epoch request io now (generate_session_epoch answers) (register_ended now t)

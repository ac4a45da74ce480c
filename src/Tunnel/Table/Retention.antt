-- ===== src/Tunnel/Table/Retention.antt =====
-- The cap on the sessions that have ended and are retained.
use sangtachi.Prelude.{
  ℕ, zero, suc, ◌+◌, ◌-◌, ◌≤◌, ◌≡◌, refl, inl, inr, not, Option, none, some, List, [], ◌∷◌, length,
  All, erase_if, arith, Option-cases,
}
use sangtachi.Protocol.{max_peers}
use sangtachi.Peer.Session.State.{Session, active}
use sangtachi.Peer.Session.Bounds.{is_some}
use sangtachi.Peer.Session.Ended.{IsValid, live-active, ended-inactive}
use sangtachi.Tunnel.Table.{
  Entry, Tunnel, terminal_count, erase_at, erase, older, oldest, enforce_cap, enforce_retention_cap,
}

-- Every session is valid.
abbrev pub AreValid : List Entry → Type 0
AreValid es = All (λ (e : Entry). IsValid e.session) es

-- The sessions that have not ended.
abbrev pub actives : List Entry → List Entry
actives es = erase_if (λ (e : Entry). not (active e.session)) es

valid-active : (s : Session) → IsValid s → active s ≡ not (is_some s.terminal_since)
valid-active s (inl h) = ground (arith, live-active s h)
valid-active s (inr h) = ground (arith, ended-inactive s h)

oldest-none : (es : List Entry) → AreValid es → oldest es ≡ none → terminal_count es ≡ 0
unfolding oldest terminal_count
oldest-none [] h e = refl
oldest-none (x ∷ es) (h, hs) e =
    let v = valid-active x.session h in
    elim (Option-cases x.session.terminal_since) [
      | inl f ↦ elim (Option-cases (oldest es)) [
        | inl g ↦ ground (arith, v, oldest-none es hs g)
        | inr (m, g) ↦ ground arith
      ]
      | inr (since, f) ↦ elim (Option-cases (oldest es)) [
        | inl g ↦ ground arith
        | inr (m, g) ↦ ground arith
      ]
    ]

older_behind :
    (a : Option ℕ) (o : Option (ℕ × ℕ)) (n since : ℕ)
    → older a o ≡ some (suc n, since)
    → o ≡ some (n, since)
older_behind none none n since e = ground arith
older_behind none (some (m, s)) n since e = ground arith
older_behind (some r) none n since e = ground arith
older_behind (some r) (some (m, s)) n since e = ground arith

-- The entry that is the oldest has ended, so that erasing it takes one from the count.
oldest-some :
    (es : List Entry) (n since : ℕ)
    → AreValid es
    → oldest es ≡ some (n, since)
    → (terminal_count (erase_at n es) + 1 ≡ terminal_count es)
      × (actives (erase_at n es) ≡ actives es)
      × AreValid (erase_at n es)
unfolding oldest terminal_count erase_at
oldest-some [] n since h e = ground arith
oldest-some (x ∷ es) zero since (h, hs) e =
    let v = valid-active x.session h in
    elim (Option-cases x.session.terminal_since) [
      | inl f ↦ elim (Option-cases (oldest es)) [ inl g ↦ ground arith | inr (m, g) ↦ ground arith ]
      | inr (s, f) ↦ (ground (arith, v), ground (arith, v), hs)
    ]
oldest-some (x ∷ es) (suc n) since (h, hs) e =
    let (a, b, c) =
      oldest-some es n since hs (older_behind x.session.terminal_since (oldest es) n since e) in
    (ground (arith, a), ground (arith, b), (h, c))

terminal_count-le : (es : List Entry) → terminal_count es ≤ length es
unfolding terminal_count
terminal_count-le [] = omega arith
terminal_count-le (e ∷ es) = ground (arith, terminal_count-le es)

enforce_cap_lem :
    (fuel : ℕ) (t : Tunnel)
    → AreValid t.sessions
    → terminal_count t.sessions ≤ fuel
    → (terminal_count (enforce_cap fuel t).sessions ≤ max_peers - 1)
      × (actives (enforce_cap fuel t).sessions ≡ actives t.sessions)
unfolding enforce_cap erase
enforce_cap_lem zero t h k = (omega (arith, k), refl)
enforce_cap_lem (suc fuel) t h k = elim (Option-cases (oldest t.sessions)) [
  | inl e ↦ ground (arith, oldest-none t.sessions h e)
  | inr ((n, since), e) ↦
      let (a, b, c) = oldest-some t.sessions n since h e in
      ground (arith, a, b, enforce_cap_lem fuel (erase n t) c)
]

-- After the cap is enforced at most four sessions that have ended are retained, and all the sessions
-- that have not ended are still there, in their order; so the loop has come to its end. The sessions
-- have to be valid.
pub enforce_retention_cap_lem :
    (t : Tunnel)
    → AreValid t.sessions
    → (terminal_count (enforce_retention_cap t).sessions ≤ max_peers - 1)
      × (actives (enforce_retention_cap t).sessions ≡ actives t.sessions)
unfolding enforce_retention_cap
enforce_retention_cap_lem t h =
    enforce_cap_lem (length t.sessions) t h (terminal_count-le t.sessions)

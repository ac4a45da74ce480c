-- ===== src/Network/StunClient/Names.antt =====
-- The names of the client's timers: a server's index is read back from them, and no two are the same.
use sangtachi.Prelude.{
  ℕ, ◌<◌, ◌≡◌, ◌≢◌, refl, sym, ap, ◌∙◌, inl, inr, false, none, some, List, ◌++◌, arith, bytes_eq,
  bytes_eq_refl, bytes_eq-eq, take-append, drop-append, length-append, Bool-cases,
}
use sangtachi.Network.Decimal.{to_string, digits_value-to_string, length-to_string}
use sangtachi.Network.StunClient.{
  retry_prefix, deadline_prefix, tail_index, retry_timer, deadline_timer,
}

tail_index-append :
    (prefix : List ℕ) (i : ℕ)
    → i < 10_000_000_000
    → tail_index (prefix ++ to_string i) prefix ≡ some i
unfolding tail_index
tail_index-append prefix i h =
    let size = length-to_string i h in
    rw (take-append prefix (to_string i), drop-append prefix (to_string i), bytes_eq_refl prefix)
      (ground (arith, length-append prefix (to_string i), size, digits_value-to_string i))

-- A timer of the client names the server that it was made for, and which of the two it is.
pub tail_index_lem :
    (i : ℕ)
    → i < 10_000_000_000
    → (tail_index (retry_timer i) retry_prefix ≡ some i)
      × (tail_index (deadline_timer i) deadline_prefix ≡ some i)
      × (tail_index (deadline_timer i) retry_prefix ≡ none)
      × (tail_index (retry_timer i) deadline_prefix ≡ none)
unfolding retry_timer deadline_timer tail_index
tail_index_lem i h = (
  tail_index-append retry_prefix i h,
  tail_index-append deadline_prefix i h,
  ground arith,
  ground arith,
)

pub retry_timer-ne_deadline : (i j : ℕ) → bytes_eq (deadline_timer j) (retry_timer i) ≡ false
unfolding retry_timer deadline_timer
retry_timer-ne_deadline i j = refl

pub deadline_timer-ne :
    (i j : ℕ)
    → i < 10_000_000_000
    → j < 10_000_000_000
    → i ≢ j
    → bytes_eq (deadline_timer i) (deadline_timer j) ≡ false
deadline_timer-ne i j p q n = elim (Bool-cases (bytes_eq (deadline_timer i) (deadline_timer j))) [
  | inl e ↦
      let same = bytes_eq-eq (deadline_timer i) (deadline_timer j) e in
      let found : some i ≡ some j =
        sym (tail_index_lem i p).1
        ∙ ap (λ t. tail_index t deadline_prefix) same
        ∙ (tail_index_lem j q).1 in
      absurd (n (ground (arith, found)))
  | inr e ↦ e
]

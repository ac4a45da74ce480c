-- ===== src/Peer/Epoch/Retired.antt =====
-- The list of retired epochs: bounded, without repetition, and true to what was put in.
use sangtachi.Prelude.{
  ℕ, ◌+◌, ◌≤◌, ◌<◌, ◌≡◌, ◌≢◌, refl, ◌∙◌, Bool, true, false, not, ◌&&◌, ◌||◌, [], ◌∷◌, ◌++◌, ltb,
  ◌==◌, length, length-append, any, arith,
}
use sangtachi.Protocol.{max_retired_epochs, retired_epoch_ttl_ms}
use sangtachi.Peer.Epoch.{
  expired, Entry, RetiredEpochs, expire, erase_epoch, pop_to_room, add, contains,
}

length-pop_to_room-lt : (es : RetiredEpochs) → length (pop_to_room es) < max_retired_epochs
length-pop_to_room-lt [] = omega arith
length-pop_to_room-lt (e ∷ es) = ground (arith, length-pop_to_room-lt es)

-- However often epochs are retired, the list never holds more than the limit.
pub length-add-le :
    (es : RetiredEpochs) (epoch now : ℕ) → length (add es epoch now) ≤ max_retired_epochs
unfolding add
length-add-le es epoch now =
    let kept = pop_to_room (erase_epoch epoch (expire es now)) in
    omega (
      arith,
      length-append kept (record { epoch = epoch; retired_at = now } ∷ []),
      length-pop_to_room-lt (erase_epoch epoch (expire es now)),
    )

any-append : (p : Entry → Bool) (xs ys : RetiredEpochs) → any p (xs ++ ys) ≡ (any p xs || any p ys)
any-append p [] ys = refl
any-append p (x ∷ xs) ys = ground (arith, any-append p xs ys)

abbrev holds : ℕ → ℕ → Entry → Bool
holds epoch t e = (e.epoch == epoch) && not (expired e.retired_at retired_epoch_ttl_ms t)

-- What has expired stays expired.
expired_mono : (r ttl now t : ℕ) → now ≤ t → expired r ttl now ≡ true → expired r ttl t ≡ true
unfolding expired
expired_mono r ttl now t h e = ground arith

contains-expire :
    (es : RetiredEpochs) (epoch now t : ℕ)
    → now ≤ t
    → contains (expire es now) epoch t ≡ contains es epoch t
unfolding contains expire
contains-expire [] epoch now t h = refl
contains-expire (e ∷ es) epoch now t h = ground (
  arith,
  contains-expire es epoch now t h,
  expired_mono e.retired_at retired_epoch_ttl_ms now t h,
)

contains-erase_epoch :
    (es : RetiredEpochs) (epoch other t : ℕ)
    → other ≢ epoch
    → contains (erase_epoch epoch es) other t ≡ contains es other t
unfolding contains
contains-erase_epoch [] epoch other t h = refl
contains-erase_epoch (e ∷ es) epoch other t h =
    ground (arith, contains-erase_epoch es epoch other t h)

length-erase_epoch-le : (es : RetiredEpochs) (epoch : ℕ) → length (erase_epoch epoch es) ≤ length es
length-erase_epoch-le [] epoch = omega arith
length-erase_epoch-le (e ∷ es) epoch = ground (arith, length-erase_epoch-le es epoch)

pop_to_room_small : (es : RetiredEpochs) → length es < max_retired_epochs → pop_to_room es ≡ es
pop_to_room_small [] h = refl
pop_to_room_small (e ∷ es) h = ground arith

contains-snoc :
    (es : RetiredEpochs) (e : Entry) (epoch t : ℕ)
    → contains (es ++ (e ∷ [])) epoch t ≡ (contains es epoch t || holds epoch t e)
unfolding contains
contains-snoc es e epoch t = any-append (holds epoch t) es (e ∷ []) ∙ ground arith

-- Retiring one epoch says nothing of another, as long as the list is not full.
pub contains-add_other :
    (es : RetiredEpochs) (epoch other now t : ℕ)
    → now ≤ t
    → other ≢ epoch
    → length (expire es now) < max_retired_epochs
    → contains (add es epoch now) other t ≡ contains es other t
unfolding add
contains-add_other es epoch other now t h ne room =
    rw
      (pop_to_room_small (erase_epoch epoch (expire es now))
        (omega (arith, length-erase_epoch-le (expire es now) epoch)))
      (contains-snoc (erase_epoch epoch (expire es now))
          (record { epoch = epoch; retired_at = now }) other t
        ∙ ground (
          arith,
          contains-erase_epoch (expire es now) epoch other t ne,
          contains-expire es other now t h,
        ))

-- Each epoch at most once.
abbrev pub lists : ℕ → RetiredEpochs → Bool
lists epoch es = any (λ e. e.epoch == epoch) es

abbrev pub IsSingle : RetiredEpochs → Type 0
IsSingle [] = Unit {0}
IsSingle (e ∷ es) = (lists e.epoch es ≡ false) × IsSingle es

lists-expire :
    (es : RetiredEpochs) (epoch now : ℕ)
    → lists epoch es ≡ false
    → lists epoch (expire es now) ≡ false
unfolding expire
lists-expire [] epoch now h = refl
lists-expire (e ∷ es) epoch now h = ground (arith, lists-expire es epoch now)

expire-IsSingle : (es : RetiredEpochs) (now : ℕ) → IsSingle es → IsSingle (expire es now)
unfolding expire
expire-IsSingle [] now h = tt
expire-IsSingle (e ∷ es) now h =
    ground (arith, h, expire-IsSingle es now h.1, lists-expire es e.epoch now h.0)

lists-erase_epoch :
    (es : RetiredEpochs) (epoch other : ℕ)
    → lists other es ≡ false
    → lists other (erase_epoch epoch es) ≡ false
lists-erase_epoch [] epoch other h = refl
lists-erase_epoch (e ∷ es) epoch other h = ground (arith, lists-erase_epoch es epoch other)

erase_epoch-IsSingle :
    (es : RetiredEpochs) (epoch : ℕ)
    → IsSingle es
    → IsSingle (erase_epoch epoch es) × (lists epoch (erase_epoch epoch es) ≡ false)
erase_epoch-IsSingle [] epoch h = (tt, refl)
erase_epoch-IsSingle (e ∷ es) epoch h =
    ground (arith, h, erase_epoch-IsSingle es epoch h.1, lists-erase_epoch es epoch e.epoch h.0)

pop_to_room-IsSingle :
    (es : RetiredEpochs) (epoch : ℕ)
    → IsSingle es
    → lists epoch es ≡ false
    → IsSingle (pop_to_room es) × (lists epoch (pop_to_room es) ≡ false)
pop_to_room-IsSingle [] epoch h n = (tt, refl)
pop_to_room-IsSingle (e ∷ es) epoch h n = ground (arith, h, n, pop_to_room-IsSingle es epoch h.1)

snoc-IsSingle :
    (es : RetiredEpochs) (e : Entry)
    → IsSingle es
    → lists e.epoch es ≡ false
    → IsSingle (es ++ (e ∷ []))
snoc-IsSingle [] e h n = (refl, tt)
snoc-IsSingle (x ∷ es) e h n = (
  any-append (λ y. y.epoch == x.epoch) es (e ∷ []) ∙ ground (arith, h.0, n),
  snoc-IsSingle es e h.1 (ground (arith, n)),
)

unlisted_not_contained :
    (es : RetiredEpochs) (epoch t : ℕ) → lists epoch es ≡ false → contains es epoch t ≡ false
unfolding contains
unlisted_not_contained [] epoch t h = refl
unlisted_not_contained (e ∷ es) epoch t h = ground (arith, unlisted_not_contained es epoch t)

-- Retiring keeps each epoch at most once, and an epoch that is retired at `now` is refused from then
-- on for its time to live, and no longer.
pub contains-add_self :
    (es : RetiredEpochs) (epoch now t : ℕ)
    → IsSingle es
    → now ≤ t
    → IsSingle (add es epoch now)
      × (contains (add es epoch now) epoch t ≡ ltb t (now + retired_epoch_ttl_ms))
unfolding add
contains-add_self es epoch now t s h =
    let entry : Entry = record { epoch = epoch; retired_at = now } in
    let erased = erase_epoch-IsSingle (expire es now) epoch (expire-IsSingle es now s) in
    let kept = pop_to_room (erase_epoch epoch (expire es now)) in
    let popped = pop_to_room-IsSingle (erase_epoch epoch (expire es now)) epoch erased.0 erased.1 in
    (
      snoc-IsSingle kept entry popped.0 popped.1,
      contains-snoc kept entry epoch t
          ∙ unfold expired in ground (arith, unlisted_not_contained kept epoch t popped.1),
    )

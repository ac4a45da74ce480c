-- ===== src/SpscRing/Queue.antt =====
-- The ring is a bounded queue.
use sangtachi.Prelude.{
  ℕ, suc, ◌+◌, ◌-◌, ◌%◌, ◌≤◌, ◌<◌, ◌≡◌, ◌≢◌, sym, ap, ap₂, ◌∙◌, inl, inr, true, false, not, none,
  some, List, [], ◌∷◌, ◌++◌, ltb, ◌==◌, if◌then◌else◌, length, get_or, set, get_or-set_self,
  length-set, arith, Bool-cases,
}
use sangtachi.SpscRing.Items.{
  wrap, mod_wrap, items, length-items, items-snoc, items-set_ne, items-set_after, items-shift,
}
use sangtachi.SpscRing.{Ring, slot_count, try_push, try_pop, size}

module _ {A : Type 0} (capacity : ℕ) (blank : A) where
  -- The items of the ring, the oldest first.
  pub contents : Ring A → List A
  contents r = items capacity blank (size capacity r) r.head r.slots

  abbrev pub IsRing : Ring A → Type 0
  IsRing r =
      (length r.slots ≡ slot_count capacity)
      × (r.head < slot_count capacity)
      × (r.tail < slot_count capacity)

  gap : ℕ → ℕ → ℕ
  gap h t = if ltb t h then t + slot_count capacity - h else t - h

  size-gap :
      (r : Ring A)
      → r.head < slot_count capacity
      → r.tail < slot_count capacity
      → size capacity r ≡ gap r.head r.tail
  unfolding size gap
  size-gap r h t =
      mod_wrap (slot_count capacity) (r.tail + slot_count capacity - r.head) (omega arith)
        (omega (arith, h, t))
      ∙ ground arith

  next_wrap :
      (i : ℕ)
      → i < slot_count capacity
      → (i + 1) % slot_count capacity ≡ (if i == capacity then 0 else i + 1)
  next_wrap i h =
      mod_wrap (slot_count capacity) (i + 1) (omega arith) (omega (arith, h)) ∙ ground arith

  -- The size is the number of items, and at most the capacity.
  pub length-contents :
      (r : Ring A)
      → IsRing r
      → (length (contents r) ≡ size capacity r) × (size capacity r ≤ capacity)
  unfolding contents gap
  length-contents r (l, h, t) =
      (length-items capacity blank (size capacity r) r.head r.slots, ground (arith, size-gap r h t))

  contents-gap :
      (r : Ring A)
      → r.head < slot_count capacity
      → r.tail < slot_count capacity
      → contents r ≡ items capacity blank (gap r.head r.tail) r.head r.slots
  unfolding contents
  contents-gap r h t = ap (λ n. items capacity blank n r.head r.slots) (size-gap r h t)

  items-set_tail :
      (v : A) (r : Ring A)
      → r.head < slot_count capacity
      → r.tail < slot_count capacity
      → items capacity blank (gap r.head r.tail) r.head (set r.slots r.tail v)
        ≡ items capacity blank (gap r.head r.tail) r.head r.slots
  unfolding gap
  items-set_tail v r h t = elim (Bool-cases (ltb r.tail r.head)) [
    | inl e ↦
        items-set_ne capacity blank (gap r.head r.tail) r.head r.tail v r.slots t (ground arith)
          (ground arith)
    | inr e ↦
        items-set_after capacity blank (gap r.head r.tail) r.head r.tail v r.slots t (ground arith)
  ]

  wrap-gap :
      (h t : ℕ)
      → h < slot_count capacity
      → t < slot_count capacity
      → wrap (slot_count capacity) (h + gap h t) ≡ t
  unfolding gap
  wrap-gap h t p q = ground arith

  items-pushed :
      (v : A) (r : Ring A)
      → IsRing r
      → items capacity blank (suc (gap r.head r.tail)) r.head (set r.slots r.tail v)
        ≡ items capacity blank (gap r.head r.tail) r.head r.slots ++ (v ∷ [])
  items-pushed v r (l, h, t) =
      items-snoc capacity blank (gap r.head r.tail) r.head (set r.slots r.tail v)
      ∙ ap₂ (λ is a. is ++ (a ∷ [])) (items-set_tail v r h t)
          (ap (λ i. get_or (set r.slots r.tail v) i blank) (wrap-gap r.head r.tail h t)
            ∙ get_or-set_self r.slots r.tail v blank (omega (arith, l, t)))

  gap-next :
      (h t next : ℕ)
      → h < slot_count capacity
      → t < slot_count capacity
      → next ≡ (if t == capacity then 0 else t + 1)
      → next ≢ h
      → gap h next ≡ suc (gap h t)
  unfolding gap
  gap-next h t next p q e ne = ground arith

  gap_full :
      (h t next : ℕ)
      → h < slot_count capacity
      → t < slot_count capacity
      → next ≡ (if t == capacity then 0 else t + 1)
      → ltb (gap h t) capacity ≡ not (next == h)
  unfolding gap
  gap_full h t next p q e = ground arith

  contents-pushed :
      (v : A) (r : Ring A)
      → IsRing r
      → ((r.tail + 1) % slot_count capacity == r.head) ≡ false
      → contents (record {
        slots = set r.slots r.tail v;
        head = r.head;
        tail = (r.tail + 1) % slot_count capacity;
      })
        ≡ contents r ++ (v ∷ [])
  contents-pushed v r (l, h, t) e =
      let next = (r.tail + 1) % slot_count capacity in
      let step = next_wrap r.tail t in
      let pushed : Ring A = record { slots = set r.slots r.tail v; head = r.head; tail = next } in
      contents-gap pushed h (ground (arith, step, t))
      ∙ ap (λ n. items capacity blank n r.head (set r.slots r.tail v))
          (gap-next r.head r.tail next h t step (ground (arith, e)))
      ∙ items-pushed v r (l, h, t)
      ∙ ap (λ is. is ++ (v ∷ [])) (sym (contents-gap r h t))

  -- `try_push` puts an item at the end unless there are as many as the capacity allows, and then it
  -- changes nothing; the ring stays well formed.
  pub try_push-contents :
      (v : A) (r : Ring A)
      → IsRing r
      → IsRing (try_push capacity v r).1
        × ((try_push capacity v r).0 ≡ ltb (length (contents r)) capacity)
        × (contents (try_push capacity v r).1
            ≡ (if ltb (length (contents r)) capacity then contents r ++ (v ∷ []) else contents r))
  unfolding try_push
  try_push-contents v r (l, h, t) =
      let next = (r.tail + 1) % slot_count capacity in
      let step = next_wrap r.tail t in
      let n = (length-contents r (l, h, t)).0 ∙ size-gap r h t in
      let full = gap_full r.head r.tail next h t step in
      elim (Bool-cases (next == r.head)) [
        | inl e ↦ ground (arith, n, full)
        | inr e ↦
            ground
              (arith, n, full, step, length-set r.slots r.tail v, contents-pushed v r (l, h, t) e)
      ]

  -- The items behind the front, from the next index on.
  items-next :
      (n h next : ℕ) (slots : List A)
      → h < slot_count capacity
      → next ≡ (if h == capacity then 0 else h + 1)
      → n ≤ capacity
      → items capacity blank n (suc h) slots ≡ items capacity blank n next slots
  items-next n h next slots p e q = elim (Bool-cases (h == capacity)) [
    | inl f ↦
        ap (λ x. items capacity blank n x slots) {x = suc h} {y = slot_count capacity + 0}
          (ground arith)
        ∙ items-shift capacity blank n 0 slots (omega (arith, q))
        ∙ ap (λ x. items capacity blank n x slots) {x = 0} {y = next} (ground arith)
    | inr f ↦ ap (λ x. items capacity blank n x slots) {x = suc h} {y = next} (ground arith)
  ]

  items-set_head :
      (n h next : ℕ) (v : A) (slots : List A)
      → h < slot_count capacity
      → next ≡ (if h == capacity then 0 else h + 1)
      → n ≤ capacity
      → items capacity blank n next (set slots h v) ≡ items capacity blank n next slots
  items-set_head n h next v slots p e q = elim (Bool-cases (h == capacity)) [
    | inl f ↦ items-set_after capacity blank n next h v slots p (ground arith)
    | inr f ↦ items-set_ne capacity blank n next h v slots p (ground arith) (ground arith)
  ]

  gap-head :
      (h t next : ℕ)
      → h < slot_count capacity
      → t < slot_count capacity
      → next ≡ (if h == capacity then 0 else h + 1)
      → (h == t) ≡ false
      → (gap h t ≡ suc (gap next t)) × (gap next t ≤ capacity)
  unfolding gap
  gap-head h t next p q e ne = ground arith

  contents-popped :
      (r : Ring A)
      → IsRing r
      → (r.head == r.tail) ≡ false
      → contents r
        ≡ get_or r.slots r.head blank
          ∷ contents (record {
            slots = set r.slots r.head blank;
            head = (r.head + 1) % slot_count capacity;
            tail = r.tail;
          })
  unfolding items
  contents-popped r (l, h, t) e =
      let next = (r.head + 1) % slot_count capacity in
      let step = next_wrap r.head h in
      let popped : Ring A = record {
        slots = set r.slots r.head blank;
        head = next;
        tail = r.tail;
      } in
      let (one_less, few) = gap-head r.head r.tail next h t step e in
      let m = gap next r.tail in
      contents-gap r h t
      ∙ ap (λ n. items capacity blank n r.head r.slots) one_less
      ∙ ap₂ (λ i is. get_or r.slots i blank ∷ is) {x = wrap (slot_count capacity) r.head}
          {y = r.head} (ground (arith, h))
          (items-next m r.head next r.slots h step few
            ∙ sym (items-set_head m r.head next blank r.slots h step few)
            ∙ sym (contents-gap popped (ground (arith, step, h)) t))

  gap_same : (h t : ℕ) → (h == t) ≡ true → gap h t ≡ 0
  unfolding gap
  gap_same h t e = ground arith

  contents_empty : (r : Ring A) → IsRing r → (r.head == r.tail) ≡ true → contents r ≡ []
  unfolding items
  contents_empty r (l, h, t) e =
      contents-gap r h t
      ∙ ap (λ n. items capacity blank n r.head r.slots) (gap_same r.head r.tail e)

  -- `try_pop` takes the item at the front, and there is none exactly if the ring is empty; the ring
  -- stays well formed.
  pub try_pop-contents :
      (r : Ring A)
      → IsRing r
      → IsRing (try_pop capacity blank r).1
        × (contents r ≡ (elim (try_pop capacity blank r).0 [
          | none ↦ []
          | some v ↦ v ∷ contents (try_pop capacity blank r).1
        ]))
  unfolding try_pop
  try_pop-contents r (l, h, t) = elim (Bool-cases (r.head == r.tail)) [
    | inl e ↦ ground (arith, l, h, t, contents_empty r (l, h, t) e)
    | inr e ↦
        ground (
          arith,
          next_wrap r.head h,
          length-set r.slots r.head blank,
          contents-popped r (l, h, t) e,
        )
  ]

-- ===== src/Tunnel/DataSender/Arguments.antt =====
-- What the arguments of `send` can be.
use sangtachi.Prelude.{
  ℕ, ◌≤◌, sym, subst, inl, inr, not, Option, none, some, List, [], ◌∷◌, ltb, ◌==◌, ◌||◌,
  if◌then◌else◌, length, arith, Bool-cases,
}
use sangtachi.Network.Endpoint.{parse_ipv4}
use sangtachi.Tunnel.DataSender.{
  SendArgs, in_range, has_dot, with_to, parse_to, with_size, parse_size, with_count, parse_words,
  words_of, parse_send_args, parse_number,
}

-- No arguments, or arguments within the bounds.
abbrev pub IsBounded : Option SendArgs → Type 0
IsBounded none = Unit
IsBounded (some a) = (1 ≤ a.count) × (a.count ≤ 1000) × (20 ≤ a.size) × (a.size ≤ 1452)

with_to-IsBounded :
    (count size : ℕ) (o : Option ℕ)
    → (1 ≤ count) × (count ≤ 1000) × (20 ≤ size) × (size ≤ 1452)
    → IsBounded (with_to count size o)
with_to-IsBounded count size none h = tt
with_to-IsBounded count size (some to) h = h

parse_to-IsBounded :
    (count size : ℕ) (words : List (List ℕ))
    → (1 ≤ count) × (count ≤ 1000) × (20 ≤ size) × (size ≤ 1452)
    → IsBounded (parse_to count size words)
unfolding parse_to
parse_to-IsBounded count size [] h = h
parse_to-IsBounded count size (word ∷ words) h = elim (Bool-cases (length words == 0)) [
  | inl e ↦ rw e (with_to-IsBounded count size (parse_ipv4 word) h)
  | inr e ↦ rw e tt
]

with_size-IsBounded :
    (count : ℕ) (words : List (List ℕ)) (o : Option ℕ)
    → (1 ≤ count) × (count ≤ 1000)
    → IsBounded (with_size count words (in_range 20 1452 o))
with_size-IsBounded count words none h = tt
with_size-IsBounded count words (some n) h = elim (Bool-cases (ltb n 20 || ltb 1452 n)) [
  | inl e ↦ rw e tt
  | inr e ↦ rw e (parse_to-IsBounded count n words (h.0, h.1, ground (arith, e), ground (arith, e)))
]

parse_size-IsBounded :
    (count : ℕ) (words : List (List ℕ))
    → (1 ≤ count) × (count ≤ 1000)
    → IsBounded (parse_size count words)
unfolding parse_size
parse_size-IsBounded count [] h =
    parse_to-IsBounded count 100 [] (h.0, h.1, omega arith, omega arith)
parse_size-IsBounded count (word ∷ words) h =
    let sized = with_size-IsBounded count words (parse_number 0xffff_ffff_ffff_ffff word) h in
    let plain = parse_to-IsBounded count 100 (word ∷ words) (h.0, h.1, omega arith, omega arith) in
    elim (Bool-cases (has_dot word)) [
      | inl e ↦
          subst
            (λ b. IsBounded (
              if not b
              then with_size count words
                  (in_range 20 1452 (parse_number 0xffff_ffff_ffff_ffff word))
              else parse_to count 100 (word ∷ words)))
            (sym e) plain
      | inr e ↦
          subst
            (λ b. IsBounded (
              if not b
              then with_size count words
                  (in_range 20 1452 (parse_number 0xffff_ffff_ffff_ffff word))
              else parse_to count 100 (word ∷ words)))
            (sym e) sized
    ]

with_count-IsBounded :
    (words : List (List ℕ)) (o : Option ℕ) → IsBounded (with_count words (in_range 1 1000 o))
with_count-IsBounded words none = tt
with_count-IsBounded words (some n) = elim (Bool-cases (ltb n 1 || ltb 1000 n)) [
  | inl e ↦ rw e tt
  | inr e ↦ rw e (parse_size-IsBounded n words (ground (arith, e), ground (arith, e)))
]

pub parse_words-IsBounded : (words : List (List ℕ)) → IsBounded (parse_words words)
unfolding parse_words
parse_words-IsBounded [] = tt
parse_words-IsBounded (word ∷ words) = elim (Bool-cases (ltb 3 (length (word ∷ words)))) [
  | inl e ↦ rw e tt
  | inr e ↦ rw e (with_count-IsBounded words (parse_number 0xffff_ffff word))
]

-- The arguments that `send` accepts ask for 1 to 1000 packets of 20 to 1452 bytes, whatever the text is.
pub parse_send_args-IsBounded : (rest : List ℕ) → IsBounded (parse_send_args rest)
parse_send_args-IsBounded rest = parse_words-IsBounded (words_of [] rest)

-- ===== src/Peer/Candidates/Selection.antt =====
-- Which interface is the default, and what a failed query leaves.
use sangtachi.Prelude.{
  ℕ, ◌+◌, ◌<◌, ◌≤◌, ◌≡◌, refl, sym, ap, ◌∙◌, inl, inr, not, ◌||◌, Option, none, some, List, [], ◌∷◌,
  ◌++◌, All, All-append, All-weaken, arith, ltb, ◌==◌, if◌then◌else◌, Bool-cases, append_assoc,
  append-nil,
}
use sangtachi.Peer.Candidates.{
  Ipv4Route, is_better, take_route, best_route, default_route_interface,
}

abbrev pub IsDefault : Ipv4Route → Type 0
IsDefault r = (r.destination ≡ 0) × (r.prefix_length ≡ 0)

abbrev pub metric : Ipv4Route → ℕ
metric r = r.route_metric + r.interface_metric

-- The first of the default routes with the least metric, with the interface and the metric given.
pub record BestRoute (routes : List Ipv4Route) (best : ℕ × ℕ) : Type 0 where
  pub before : List Ipv4Route
  pub route : Ipv4Route
  pub after : List Ipv4Route
  pub parts : routes ≡ before ++ (route ∷ after)
  pub index : best.0 ≡ route.if_index
  pub sum : best.1 ≡ metric route
  pub chosen : IsDefault route
  pub ahead : All (λ x. IsDefault x → metric route < metric x) before
  pub behind : All (λ x. IsDefault x → metric route ≤ metric x) after

abbrev BestOf : List Ipv4Route → Option (ℕ × ℕ) → Type 0
BestOf seen none = All (λ x. ¬ IsDefault x) seen
BestOf seen (some best) = BestRoute seen best

-- A route that is not better than the best is put behind it.
BestRoute-behind :
    (seen : List Ipv4Route) (best : ℕ × ℕ) (r : Ipv4Route)
    → BestRoute seen best
    → (IsDefault r → best.1 ≤ metric r)
    → BestRoute (seen ++ (r ∷ [])) best
BestRoute-behind seen best r b h = record {
  before = b.before;
  route = b.route;
  index = b.index;
  sum = b.sum;
  chosen = b.chosen;
  ahead = b.ahead;
  after = b.after ++ (r ∷ []);
  parts = ap (λ l. l ++ (r ∷ [])) b.parts ∙ append_assoc b.before (b.route ∷ b.after) (r ∷ []);
  behind =
      All-append (λ x. IsDefault x → metric b.route ≤ metric x) b.after (r ∷ []) b.behind
        ((λ d. let k = h d in omega (arith, b.sum, k)), tt);
}

-- A default route that is better than all before becomes the best.
BestRoute-new :
    (seen : List Ipv4Route) (r : Ipv4Route)
    → IsDefault r
    → All (λ x. IsDefault x → metric r < metric x) seen
    → BestRoute (seen ++ (r ∷ [])) (r.if_index, metric r)
BestRoute-new seen r d h = record {
  before = seen;
  route = r;
  after = [];
  parts = refl;
  index = refl;
  sum = refl;
  chosen = d;
  ahead = h;
  behind = tt;
}

BestRoute-least :
    (seen : List Ipv4Route) (best : ℕ × ℕ)
    → BestRoute seen best
    → All (λ x. IsDefault x → best.1 ≤ metric x) seen
BestRoute-least seen best b = rw b.parts (
    All-append (λ x. IsDefault x → best.1 ≤ metric x) b.before (b.route ∷ b.after)
      (All-weaken (λ x. IsDefault x → metric b.route < metric x)
        (λ x. IsDefault x → best.1 ≤ metric x) (λ x f d. let k = f d in omega (arith, b.sum, k))
        b.before b.ahead)
      (
        (λ d. omega (arith, b.sum)),
        All-weaken (λ x. IsDefault x → metric b.route ≤ metric x)
            (λ x. IsDefault x → best.1 ≤ metric x) (λ x f d. let k = f d in omega (arith, b.sum, k))
            b.after b.behind,
      ))

BestOf-skip :
    (seen : List Ipv4Route) (r : Ipv4Route) (best : Option (ℕ × ℕ))
    → ¬ IsDefault r
    → BestOf seen best
    → BestOf (seen ++ (r ∷ [])) best
BestOf-skip seen r none n h = All-append (λ x. ¬ IsDefault x) seen (r ∷ []) h (n, tt)
BestOf-skip seen r (some best) n h = BestRoute-behind seen best r h (λ d. absurd (n d))

BestOf-take :
    (seen : List Ipv4Route) (r : Ipv4Route) (best : Option (ℕ × ℕ))
    → IsDefault r
    → BestOf seen best
    → BestOf
        (seen ++ (r ∷ []))
        (if is_better (metric r) best then some (r.if_index, metric r) else best)
BestOf-take seen r none d h = BestRoute-new seen r d (
    All-weaken (λ x. ¬ IsDefault x) (λ x. IsDefault x → metric r < metric x) (λ x n e. absurd (n e))
      seen h)
BestOf-take seen r (some best) d h = elim (Bool-cases (ltb (metric r) best.1)) [
  | inl e ↦ rw e (
      BestRoute-new seen r d (
        All-weaken (λ x. IsDefault x → best.1 ≤ metric x) (λ x. IsDefault x → metric r < metric x)
          (λ x f k. let m = f k in ground arith) seen (BestRoute-least seen best h)))
  | inr e ↦ rw e (BestRoute-behind seen best r h (λ k. ground arith))
]

BestOf-step :
    (seen : List Ipv4Route) (r : Ipv4Route) (best : Option (ℕ × ℕ))
    → BestOf seen best
    → BestOf (seen ++ (r ∷ [])) (take_route r best)
BestOf-step seen r best h =
    elim (Bool-cases (not (r.destination == 0) || not (r.prefix_length == 0))) [
      | inl e ↦ rw e (BestOf-skip seen r best (λ d. ground arith) h)
      | inr e ↦ rw e (BestOf-take seen r best (ground arith) h)
    ]

best_route_lem :
    (seen routes : List Ipv4Route) (best : Option (ℕ × ℕ))
    → BestOf seen best
    → BestOf (seen ++ routes) (best_route routes best)
best_route_lem seen [] best h = rw append-nil h
best_route_lem seen (r ∷ routes) best h =
    rw (sym (append_assoc seen (r ∷ []) routes))
      (best_route_lem (seen ++ (r ∷ [])) routes (take_route r best) (BestOf-step seen r best h))

-- The answer of `default_route_interface`, given as a statement about the routes.
abbrev pub IsDefaultInterface : List Ipv4Route → Option ℕ → Type 0
IsDefaultInterface routes none = All (λ x. ¬ IsDefault x) routes
IsDefaultInterface routes (some i) = (sum : ℕ) × BestRoute routes (i, sum)

best_interface :
    (routes : List Ipv4Route) (best : Option (ℕ × ℕ))
    → BestOf routes best
    → IsDefaultInterface routes (elim best [ none ↦ none | some b ↦ some b.0 ])
best_interface routes none h = h
best_interface routes (some best) h = (best.1, h)

-- The default interface is that of the first among the routes to 0.0.0.0/0 with the least sum of
-- metrics, and there is none exactly if there is no such route.
pub default_route_interface-IsDefaultInterface :
    (routes : List Ipv4Route) → IsDefaultInterface routes (default_route_interface routes)
unfolding default_route_interface
default_route_interface-IsDefaultInterface routes =
    best_interface routes (best_route routes none) (best_route_lem [] routes none tt)

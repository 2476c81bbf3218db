-- ===== src/Routing/Selector/Selections.antt =====
-- What the loop of the selectors collects, and that the choice is a best qualified candidate.
use mathlib.Core.List.{Memᴰ, append_assoc, append-nil}
use skail.Prelude.{
  ℕ, String, ◌≡◌, refl, sym, subst, ◌∙◌, inl, inr, Bool, true, false, ◌&&◌, Option, none, some,
  List, [], ◌∷◌, ◌++◌, arith, if◌then◌else◌, length, keep, All, Bool-cases, ok, Result-cases, ap,
  Mem-keep, All-keep,
}
use skail.Prelude.Int.{ℤ}
use skail.Prelude.Order.{
  sorted, least, least-mem, least-All, by_key, tuple_lt, tuple_lt-IsOrder, by_key-IsOrder,
  Mem-sorted, All-sorted, length-keep-sorted,
}
use skail.Routing.Selector.Requirements.{RoutingMode, is_manual, Key, RoutingRequirements}
use skail.Routing.Selector.Exclusion.{RouteCandidate, exclusion_reason}
use skail.Routing.Selector.Choice.{
  RouteSelection, Route, stable_key, Tally, empty_tally, note_candidate, tally, the_rank, choose,
  rank, conclude_selection, select_model, is_unpinned,
}
use skail.Routing.Selector.Leads.{lead_rank, conclude_lead, effective, select_lead_model}

abbrev has_no_reason : Option String → Bool
has_no_reason none = true
has_no_reason (some why) = false

-- The candidate passes every test.
abbrev pub qualifies : RoutingRequirements → Option ℤ → Option Key → RouteCandidate → Bool
qualifies r budget manual_model c = has_no_reason (exclusion_reason c r budget manual_model)

note_included :
    (r : RoutingRequirements) (m : Option Key) (reason : Option String) (c : RouteCandidate)
    (t : Tally)
    → (note_candidate r m reason c t).included
      ≡ t.included ++ (if has_no_reason reason then c ∷ [] else [])
unfolding note_candidate
note_included r m none c t = refl
note_included r m (some why) c t = sym (append-nil t.included)

keep_step :
    (b : Bool) (c : RouteCandidate) (cs : List RouteCandidate)
    → (if b then c ∷ [] else []) ++ cs ≡ (if b then c ∷ cs else cs)
keep_step true c cs = refl
keep_step false c cs = refl

pub tally_included :
    (r : RoutingRequirements) (b : Option ℤ) (m : Option Key) (cs : List RouteCandidate) (t : Tally)
    → (tally r b m cs t).included ≡ t.included ++ keep (qualifies r b m) cs
unfolding tally
tally_included r b m [] t = sym (append-nil t.included)
tally_included r b m (c ∷ cs) t =
    let reason = exclusion_reason c r b m in
    let rest = keep (qualifies r b m) cs in
    tally_included r b m cs (note_candidate r m reason c t)
    ∙ ap (λ l. l ++ rest) (note_included r m reason c t)
    ∙ append_assoc t.included _ rest
    ∙ ap (λ l. t.included ++ l) (keep_step (has_no_reason reason) c rest)

-- `best` is a candidate of least rank among the qualified ones, of which there are n.
pub record IsLeast (p : RouteCandidate → Bool) (key : RouteCandidate → List (List ℤ))
    (cs : List RouteCandidate) (best : RouteCandidate) (n : ℕ) : Type 0 where
  pub candidate : Memᴰ best cs
  pub qualified : p best ≡ true
  pub counted : n ≡ length (keep p cs)
  pub least_rank : All (λ c. tuple_lt (key c) (key best) ≡ false) (keep p cs)

choose-least :
    (rank_by : RouteCandidate → Option (List (List ℤ))) (x : RouteCandidate)
    (xs : List RouteCandidate) (c : RouteCandidate)
    → choose rank_by x xs ≡ ok c
    → c ≡ least (by_key tuple_lt (λ c. the_rank (rank_by c))) x xs
unfolding choose
choose-least rank_by x xs c h = ground (arith, h)

least-IsLeast :
    (p : RouteCandidate → Bool) (key : RouteCandidate → List (List ℤ)) (cs : List RouteCandidate)
    (x : RouteCandidate) (xs : List RouteCandidate)
    → x ∷ xs ≡ keep p (sorted (by_key tuple_lt stable_key) cs)
    → IsLeast p key cs (least (by_key tuple_lt key) x xs) (length (x ∷ xs))
least-IsLeast p key cs x xs e =
    let best = least (by_key tuple_lt key) x xs in
    let by_stable = by_key tuple_lt stable_key in
    let (m, q) =
      Mem-keep p (sorted by_stable cs)
        (subst (λ l. Memᴰ best l) e (least-mem (by_key tuple_lt key) x xs)) in
    let all_least =
      subst (λ l. All (λ c. tuple_lt (key c) (key best) ≡ false) l) e
        (least-All (by_key tuple_lt key) (by_key-IsOrder tuple_lt key tuple_lt-IsOrder) x xs) in
    record {
      candidate = Mem-sorted by_stable cs m;
      qualified = q;
      counted = (λ i. length (e i)) ∙ length-keep-sorted by_stable p cs;
      least_rank =
          (All-keep _ p cs).1
            (All-sorted by_stable _ cs ((All-keep _ p (sorted by_stable cs)).0 all_least));
    }

concluded :
    (mode : RoutingMode) (t : Tally) (x : RouteCandidate) (xs : List RouteCandidate)
    (s : RouteSelection)
    → conclude_selection mode t (x ∷ xs) ≡ ok (Route.selected s)
    → (s.candidate ≡ least (by_key tuple_lt (λ c. the_rank (rank mode c))) x xs)
      × (s.included_count ≡ length (x ∷ xs))
concluded mode t x xs s h = elim (Result-cases (choose (rank mode) x xs)) [
  | inl e ↦
      let f = choose-least (rank mode) x xs e.0 e.1 in
      let g = rw e.1 at h in (ground (arith, g) ∙ f, ground (arith, g))
  | inr e ↦ let g = rw e.1 at h in cc
]

lead_concluded :
    (cs : List RouteCandidate) (r : RoutingRequirements) (t : Tally) (x : RouteCandidate)
    (xs : List RouteCandidate) (s : RouteSelection)
    → conclude_lead cs r t (x ∷ xs) ≡ ok (Route.selected s)
    → (s.candidate ≡ least (by_key tuple_lt (λ c. the_rank (lead_rank r.mode c))) x xs)
      × (s.included_count ≡ length (x ∷ xs))
lead_concluded cs r t x xs s h = elim (Result-cases (choose (lead_rank r.mode) x xs)) [
  | inl e ↦
      let f = choose-least (lead_rank r.mode) x xs e.0 e.1 in
      let g = rw e.1 at h in (ground (arith, g) ∙ f, ground (arith, g))
  | inr e ↦ let g = rw e.1 at h in cc
]

same-IsLeast :
    (p : RouteCandidate → Bool) (key : RouteCandidate → List (List ℤ)) (cs : List RouteCandidate)
    (x : RouteCandidate) (xs : List RouteCandidate) (best : RouteCandidate) (n : ℕ)
    → x ∷ xs ≡ keep p (sorted (by_key tuple_lt stable_key) cs)
    → (best ≡ least (by_key tuple_lt key) x xs) × (n ≡ length (x ∷ xs))
    → IsLeast p key cs best n
same-IsLeast p key cs x xs best n e same =
    subst (λ k. IsLeast p key cs best k) (sym same.1)
      (subst (λ c. IsLeast p key cs c (length (x ∷ xs))) (sym same.0)
        (least-IsLeast p key cs x xs e))

conclude-IsLeast :
    (mode : RoutingMode) (t : Tally) (p : RouteCandidate → Bool) (cs inc : List RouteCandidate)
    (s : RouteSelection)
    → inc ≡ keep p (sorted (by_key tuple_lt stable_key) cs)
    → conclude_selection mode t inc ≡ ok (Route.selected s)
    → IsLeast p (λ c. the_rank (rank mode c)) cs s.candidate s.included_count
conclude-IsLeast mode t p cs [] s e h = cc
conclude-IsLeast mode t p cs (x ∷ xs) s e h =
    same-IsLeast p _ cs x xs s.candidate s.included_count e (concluded mode t x xs s h)

conclude_lead-IsLeast :
    (r : RoutingRequirements) (t : Tally) (p : RouteCandidate → Bool) (cs inc : List RouteCandidate)
    (s : RouteSelection)
    → inc ≡ keep p (sorted (by_key tuple_lt stable_key) cs)
    → conclude_lead cs r t inc ≡ ok (Route.selected s)
    → IsLeast p (λ c. the_rank (lead_rank r.mode c)) cs s.candidate s.included_count
conclude_lead-IsLeast r t p cs [] s e h = cc
conclude_lead-IsLeast r t p cs (x ∷ xs) s e h =
    same-IsLeast p _ cs x xs s.candidate s.included_count e (lead_concluded cs r t x xs s h)

pub select_model-IsLeast :
    (cs : List RouteCandidate) (r : RoutingRequirements) (budget : Option ℤ)
    (manual_model : Option Key) (s : RouteSelection)
    → select_model cs r budget manual_model ≡ ok (Route.selected s)
    → IsLeast
        (qualifies r budget manual_model)
        (λ c. the_rank (rank r.mode c))
        cs
        s.candidate
        s.included_count
unfolding select_model
select_model-IsLeast cs r budget m s h =
    let t = tally r budget m (sorted (by_key tuple_lt stable_key) cs) empty_tally in
    elim (Bool-cases (is_manual r.mode && is_unpinned m)) [
      | inl e ↦ let g = rw e at h in cc
      | inr e ↦
          conclude-IsLeast r.mode t (qualifies r budget m) cs t.included s
            (tally_included r budget m (sorted (by_key tuple_lt stable_key) cs) empty_tally)
            (rw e at h)
    ]

pub select_lead_model-IsLeast :
    (cs : List RouteCandidate) (r : RoutingRequirements) (budget : Option ℤ)
    (manual_model : Option Key) (s : RouteSelection)
    → select_lead_model cs r budget manual_model ≡ ok (Route.selected s)
    → IsLeast
        (qualifies (effective r manual_model) budget manual_model)
        (λ c. the_rank (lead_rank (effective r manual_model).mode c))
        cs
        s.candidate
        s.included_count
unfolding select_lead_model
select_lead_model-IsLeast cs r budget m s h =
    let t = tally (effective r m) budget m (sorted (by_key tuple_lt stable_key) cs) empty_tally in
    conclude_lead-IsLeast (effective r m) t (qualifies (effective r m) budget m) cs t.included s
      (tally_included (effective r m) budget m (sorted (by_key tuple_lt stable_key) cs) empty_tally)
      h

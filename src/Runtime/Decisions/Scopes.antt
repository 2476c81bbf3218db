-- ===== src/Runtime/Decisions/Scopes.antt =====
-- The scopes of the agents of an accepted decision do not overlap.
use mathlib.Core.List.{append_assoc, append-nil}
use skail.Prelude.{
  ℕ, String, ◌≡◌, refl, inl, inr, Bool, false, ◌||◌, Option, none, some, List, [], ◌∷◌, ◌++◌, arith,
  any, Option-cases, ap, sym, subst, length, ◌∙◌,
}
use skail.Domain.Plans.{PlanNode, ExecutionDecision}
use skail.Runtime.Decisions.State.{
  Intent, Services, has_scope, wrong_profile, overlaps, own_scopes, scopes_of, own_all, agents_of,
  constraint_error,
}

-- No two scopes of the list overlap.
abbrev pub IsDisjoint : List (List String) → Type 0
IsDisjoint [] = Unit
IsDisjoint (s ∷ scopes) = (any (overlaps s) scopes ≡ false) × IsDisjoint scopes

any-append :
    (p : List String → Bool) (xs : List (List String)) (x : List String)
    → any p (xs ++ x ∷ []) ≡ (any p xs || p x)
any-append p [] x = ground arith
any-append p (y ∷ xs) x = ground (arith, any-append p xs x)

IsDisjoint-append :
    (xs : List (List String)) (x : List String)
    → IsDisjoint xs
    → any (overlaps x) xs ≡ false
    → IsDisjoint (xs ++ x ∷ [])
IsDisjoint-append [] x d h = (refl, tt)
IsDisjoint-append (y ∷ xs) x d h = (
  ground (arith, any-append (overlaps y) xs x, d.0, h),
  IsDisjoint-append xs x d.1 (ground (arith, h)),
)

some-inj : (a b : List (List String)) → Option.some a ≡ some b → a ≡ b
some-inj a b h = ground (arith, h)

-- What the loop over the scopes of an agent gives.
record Owns (scopes owned owned' : List (List String)) : Type 0 where
  all_of : owned' ≡ owned ++ scopes
  disjoint : IsDisjoint owned'

own_scopes-Owns :
    (scopes owned owned' : List (List String))
    → IsDisjoint owned
    → own_scopes scopes owned ≡ some owned'
    → Owns scopes owned owned'
unfolding own_scopes
own_scopes-Owns [] owned owned' d h =
    subst (λ o. Owns [] owned o) (some-inj owned owned' h)
      (record { all_of = sym (append-nil owned); disjoint = d })
own_scopes-Owns (s ∷ scopes) owned owned' d h =
    let (apart, rest) = step s scopes owned owned' h in
    let o =
      own_scopes-Owns scopes (owned ++ s ∷ []) owned' (IsDisjoint-append owned s d apart) rest in
    record { all_of = o.all_of ∙ append_assoc owned (s ∷ []) scopes; disjoint = o.disjoint }
  where
    step :
        (s : List String) (scopes owned owned' : List (List String))
        → own_scopes (s ∷ scopes) owned ≡ some owned'
        → (any (overlaps s) owned ≡ false) × (own_scopes scopes (owned ++ s ∷ []) ≡ some owned')
    step s scopes owned owned' h = ground (arith, h)

has_scope-some :
    (mine : List (List String)) (o : Option (List (List String))) (r : List (List String))
    → has_scope mine o ≡ some r
    → o ≡ some r
has_scope-some [] o r h = cc
has_scope-some (s ∷ mine) o r h = h

module _ {A : Type 0} (services : Services A) where
  -- The scopes of all agents, in their order.
  abbrev pub all_scopes : List PlanNode → List (List String)
  all_scopes [] = []
  all_scopes (n ∷ agents) = scopes_of services n.resource_scopes ++ all_scopes agents

  own_all-Owns :
      (agents : List PlanNode) (owned owned' : List (List String))
      → IsDisjoint owned
      → own_all services agents owned ≡ some owned'
      → Owns (all_scopes agents) owned owned'
  unfolding own_all
  own_all-Owns [] owned owned' d h =
      subst (λ o. Owns [] owned o) (some-inj owned owned' h)
        (record { all_of = sym (append-nil owned); disjoint = d })
  own_all-Owns (n ∷ agents) owned owned' d h =
      let mine = scopes_of services n.resource_scopes in
      elim (Option-cases (has_scope mine (own_scopes mine owned))) [
        | inl e ↦ let g = rw (e, own_all) at h in cc
        | inr (mid, e) ↦
            let first =
              own_scopes-Owns mine owned mid d
                (has_scope-some mine (own_scopes mine owned) mid e) in
            let later = own_all-Owns agents mid owned' first.disjoint (rw (e, own_all) at h) in
            record {
              all_of =
                  later.all_of
                  ∙ ap (λ o. o ++ all_scopes agents) first.all_of
                  ∙ append_assoc owned mine (all_scopes agents);
              disjoint = later.disjoint;
            }
      ]

  scoped :
      (i : Intent) (d : ExecutionDecision) (n : ℕ)
      → constraint_error services i d ≡ none
      → i.required_agent_count ≡ some n
      → (owned : List (List String)) × (own_all services (agents_of d.plan) [] ≡ some owned)
        × (length (agents_of d.plan) ≡ n)
        × (wrong_profile i.required_agent_profile (agents_of d.plan) ≡ false)
  unfolding constraint_error
  scoped i d n h e = elim (Option-cases (own_all services (agents_of d.plan) [])) [
    | inl f ↦ ([], ground (arith, h, e, f), ground (arith, h, e, f), ground (arith, h, e, f))
    | inr (owned, f) ↦ (owned, f, ground (arith, h, e, f), ground (arith, h, e, f))
  ]

  -- A decision that passes the constraints, where the user asked for n agents, has exactly n agents,
  -- all of the profile that was asked for, and no scope of one overlaps another scope of its own or
  -- of another agent.
  pub constrained-IsDisjoint :
      (i : Intent) (d : ExecutionDecision) (n : ℕ)
      → constraint_error services i d ≡ none
      → i.required_agent_count ≡ some n
      → (length (agents_of d.plan) ≡ n)
        × (wrong_profile i.required_agent_profile (agents_of d.plan) ≡ false)
        × IsDisjoint (all_scopes (agents_of d.plan))
  constrained-IsDisjoint i d n h e =
      let (owned, found, count, profile) = scoped i d n h e in
      let o = own_all-Owns (agents_of d.plan) [] owned tt found in
      (count, profile, subst IsDisjoint o.all_of o.disjoint)

-- ===== src/Domain/Plans/Validation.antt =====
-- Which plans and decisions are valid.
use skail.Prelude.{
  ◌+◌, ◌≤◌, String, ◌≡◌, refl, ◌↔◌, inl, inr, Bool, true, false, not, Option, none, some, List, [],
  ◌∷◌, map, arith, all, any, str_eq, eq_refl, Bool-cases, Option-cases, subst, ok,
}
use skail.Prelude.Dict.{get, has, keys}
use skail.Prelude.Sets.{contains, has_duplicate}
use skail.Domain.Graph.{Graph, Search, explore}
use skail.Domain.Graph.Fuel.{IsClosed}
use skail.Domain.Graph.Decision.{IsAcyclic, Covers, done-IsAcyclic, acyclic_done, any_unknown}
use skail.Domain.Plans.{
  verdict, PlanRevision, is_checkpoint, is_read, PlanNode, ExecutionPlan, graph_of, is_invalid,
  validate_graph, ExecutionMode, ExecutionDecision, check_discovery, check_plan, validate_mode,
}

valid_dependencies :
    (g : Graph) (ns : List PlanNode) (x : String) (ds : List String)
    → any (is_invalid g) ns ≡ false
    → get (graph_of ns) x ≡ some ds
    → any (λ d. not (has g d)) ds ≡ false
unfolding graph_of get
valid_dependencies g [] x ds h e = cc
valid_dependencies g (n ∷ ns) x ds h e = elim (Bool-cases (str_eq n.local_id x)) [
  | inl s ↦
      let same : n.depends_on ≡ ds = ground (arith, rw s at e) in
      subst (λ l. any (λ d. not (has g d)) l ≡ false) same (ground (arith, h))
  | inr s ↦ valid_dependencies g ns x ds (ground (arith, h)) (rw s at e)
]

keys-Covers : (g : Graph) → Covers g (keys g)
unfolding keys get contains
keys-Covers [] x h = h
keys-Covers ((k, ds) ∷ g) x h = ground (arith, h, keys-Covers g x)

all-weaken :
    (p q : String → Bool) (xs : List String)
    → ((x : String) → p x ≡ true → q x ≡ true)
    → all p xs ≡ true
    → all q xs ≡ true
all-weaken p q [] f h = refl
all-weaken p q (x ∷ xs) f h = ground (arith, h, f x, all-weaken p q xs f)

keys_have : (g : Graph) → all (has g) (keys g) ≡ true
unfolding keys get
keys_have [] = refl
keys_have ((k, ds) ∷ g) =
    ground (
      arith,
      eq_refl k,
      all-weaken (has g) (has ((k, ds) ∷ g)) (keys g) (grown k ds g) (keys_have g),
    )
  where
    grown :
        (k : String) (ds : List String) (g : Graph) (x : String)
        → has g x ≡ true
        → has ((k, ds) ∷ g) x ≡ true
    grown k ds g x h = ground (arith, h)

-- The nodes have different ids and different objectives, none depends on itself or on a node that
-- is not there, and none depends on itself through others.
pub record IsValid (casefold : String → String) (p : ExecutionPlan) : Type 0 where
  pub ids : has_duplicate (map (λ n. n.local_id) p.nodes) ≡ false
  pub objectives : has_duplicate (map (λ n. casefold n.objective) p.nodes) ≡ false
  pub dependencies : any (is_invalid (graph_of p.nodes)) p.nodes ≡ false
  pub acyclic : IsAcyclic (graph_of p.nodes)

accepted :
    (p : ExecutionPlan) (s : Search) → verdict p s ≡ ok p → (v : List String) × (s ≡ Search.done v)
accepted p (Search.done v) h = (v, refl)
accepted p Search.cyclic h = cc
accepted p Search.missing h = cc
accepted p Search.exhausted h = cc

validated_inv :
    (casefold : String → String) (p : ExecutionPlan)
    → validate_graph casefold p ≡ ok p
    → (has_duplicate (map (λ n. n.local_id) p.nodes) ≡ false)
      × (has_duplicate (map (λ n. casefold n.objective) p.nodes) ≡ false)
      × (any (is_invalid (graph_of p.nodes)) p.nodes ≡ false)
      × (verdict p (explore (graph_of p.nodes) (keys (graph_of p.nodes))) ≡ ok p)
unfolding validate_graph
validated_inv casefold p h = ground (arith, h)

validated_back :
    (casefold : String → String) (p : ExecutionPlan) (v : List String)
    → IsValid casefold p
    → explore (graph_of p.nodes) (keys (graph_of p.nodes)) ≡ Search.done v
    → validate_graph casefold p ≡ ok p
unfolding validate_graph
validated_back casefold p v h e = ground (arith, h.ids, h.objectives, h.dependencies, e)

-- A plan is accepted exactly when its nodes have different ids and objectives that differ after
-- `strip().casefold()`, no node depends on itself or on a node that is not there, and no node depends
-- on itself through others.
pub validate_graph_iff :
    (casefold : String → String) (p : ExecutionPlan)
    → (validate_graph casefold p ≡ ok p) ↔ IsValid casefold p
validate_graph_iff casefold p = (forth, back)
  where
    g : Graph
    g = graph_of p.nodes

    closed : any (is_invalid g) p.nodes ≡ false → IsClosed g
    closed valid x y ds e m = any_unknown g ds y (valid_dependencies g p.nodes x ds valid e) m

    forth : validate_graph casefold p ≡ ok p → IsValid casefold p
    forth h =
        let (ids, objectives, dependencies, e) = validated_inv casefold p h in
        let (v, found) = accepted p (explore g (keys g)) e in
        record {
          ids = ids;
          objectives = objectives;
          dependencies = dependencies;
          acyclic = done-IsAcyclic g (keys g) v (keys-Covers g) found;
        }

    back : IsValid casefold p → validate_graph casefold p ≡ ok p
    back h =
        let (v, found) = acyclic_done g (keys g) (closed h.dependencies) (keys_have g) h.acyclic in
        validated_back casefold p v h found

check_discovery_inv :
    (d e : ExecutionDecision) (p : ExecutionPlan) (m : ExecutionMode)
    → m ≡ ExecutionMode.discovery
    → check_discovery d p m ≡ ok e
    → (any (λ n. is_checkpoint n.kind) p.nodes ≡ true)
      × (any (λ n. not (is_read n.effect_scope)) p.nodes ≡ false)
unfolding check_discovery
check_discovery_inv d e p m s h = ground (arith, s, h)

with_plan :
    (d e : ExecutionDecision) (p : ExecutionPlan)
    → validate_mode d ≡ ok e
    → d.mode ≡ ExecutionMode.discovery
    → d.plan ≡ some p
    → check_plan d p d.revision ≡ ok e
unfolding validate_mode
with_plan d e p h m there = ground (arith, h, m, there)

check_plan_inv :
    (d e : ExecutionDecision) (p : ExecutionPlan) (r : Option PlanRevision)
    → check_plan d p r ≡ ok e
    → check_discovery d p d.mode ≡ ok e
unfolding check_plan
check_plan_inv d e p none h = ground (arith, h)
check_plan_inv d e p (some r) h = ground (arith, h)

without_plan :
    (d e : ExecutionDecision)
    → validate_mode d ≡ ok e
    → d.mode ≡ ExecutionMode.discovery
    → ¬ (d.plan ≡ none)
unfolding validate_mode
without_plan d e h m gone = ground (arith, h, m, gone)

-- An accepted decision to discover has a plan with a checkpoint, whose nodes all only read.
discovery_reads :
    (d : ExecutionDecision)
    → validate_mode d ≡ ok d
    → d.mode ≡ ExecutionMode.discovery
    → (p : ExecutionPlan) × (d.plan ≡ some p)
      × (any (λ n. is_checkpoint n.kind) p.nodes ≡ true)
      × (any (λ n. not (is_read n.effect_scope)) p.nodes ≡ false)
unfolding validate_mode
discovery_reads d h e = elim (Option-cases d.plan) [
  | inl gone ↦ elim (without_plan d d h e gone) [ ]
  | inr there ↦
      let g = check_plan_inv d d there.0 d.revision (with_plan d d there.0 h e there.1) in
      let (checkpoint, reads) = check_discovery_inv d d there.0 d.mode e g in
      (there.0, there.1, checkpoint, reads)
]

-- An accepted revision of a plan replaces the version just before the one that it brings.
revision_follows :
    (d : ExecutionDecision) (p : ExecutionPlan) (r : PlanRevision)
    → validate_mode d ≡ ok d
    → d.plan ≡ some p
    → d.revision ≡ some r
    → 1 ≤ p.revision
    → r.expected_revision + 1 ≡ p.revision
unfolding validate_mode check_plan
revision_follows d p r h plan revision positive = ground (arith, h, plan, revision, positive)

-- ===== src/Runtime/Scheduler/Layers.antt =====
-- `submit` and `approve` keep the children in layers: each depends only on earlier ones.
use mathlib.Core.List.{Memᴰ}
use skail.Prelude.{
  ◌<◌, String, ◌≡◌, ◌⊎◌, inl, inr, refl, sym, Bool, true, false, ◌||◌, not, List, [], ◌∷◌, ◌++◌,
  arith, any, length, length-append, str_eq, eq_iff, eq_refl, subst, ok,
}
use skail.Prelude.Int.{ℤ}
use skail.Prelude.Sets.{contains}
use skail.Runtime.Scheduler.State.{ScheduledChild, Scheduler, has_child}
use skail.Runtime.Scheduler.Operations.{submit}
use skail.Runtime.Scheduler.Blocking.{IsLayered}

mem_snoc :
    {c n : ScheduledChild} (cs : List ScheduledChild) → Memᴰ c (cs ++ n ∷ []) → Memᴰ c cs ⊎ (c ≡ n)
mem_snoc [] (Memᴰ.head e) = inr e
mem_snoc [] (Memᴰ.tail m) = elim m [ ]
mem_snoc (d ∷ cs) (Memᴰ.head e) = inl (Memᴰ.head e)
mem_snoc (d ∷ cs) (Memᴰ.tail m) = elim (mem_snoc cs m) [
  | inl old ↦ inl (Memᴰ.tail old)
  | inr new ↦ inr new
]

has_child-snoc :
    (cs : List ScheduledChild) (n : ScheduledChild) (x : String)
    → has_child cs x ≡ true
    → has_child (cs ++ n ∷ []) x ≡ true
unfolding has_child
has_child-snoc [] n x h = cc
has_child-snoc (c ∷ cs) n x h = ground (arith, has_child-snoc cs n x)

pub has_child-mem :
    (cs : List ScheduledChild) (c : ScheduledChild) → Memᴰ c cs → has_child cs c.task_id ≡ true
unfolding has_child
has_child-mem [] c m = elim m [ ]
has_child-mem (d ∷ cs) c (Memᴰ.head e) =
    subst (λ (y : ScheduledChild). (str_eq d.task_id y.task_id || has_child cs y.task_id) ≡ true)
      (sym e) (rw (eq_refl d.task_id))
has_child-mem (d ∷ cs) c (Memᴰ.tail m) = ground (arith, has_child-mem cs c m)

all_known :
    (cs : List ScheduledChild) (ds : List String) (x : String)
    → any (λ d. not (has_child cs d)) ds ≡ false
    → contains ds x ≡ true
    → has_child cs x ≡ true
unfolding contains
all_known cs [] x h k = cc
all_known cs (d ∷ ds) x h k = ground (arith, all_known cs ds x, eq_iff d x, named)
  where
    named : d ≡ x → has_child cs d ≡ has_child cs x
    named e = cc

module _ (cs : List ScheduledChild) (n : ScheduledChild) (layered : IsLayered cs)
    (last : n.creation_order ≡ length cs) (new : has_child cs n.task_id ≡ false)
    (deps : (x : String) → contains n.depends_on x ≡ true → has_child cs x ≡ true) where
  early_snoc :
      (c : ScheduledChild) → Memᴰ c (cs ++ n ∷ []) → c.creation_order < length (cs ++ n ∷ [])
  early_snoc c m = elim (mem_snoc cs m) [
    | inl old ↦ omega (arith, layered.early c old, length-append cs (n ∷ []))
    | inr e ↦ rw e (omega (arith, last, length-append cs (n ∷ [])))
  ]

  known_snoc :
      (c : ScheduledChild) (x : String)
      → Memᴰ c (cs ++ n ∷ [])
      → contains c.depends_on x ≡ true
      → has_child cs x ≡ true
  known_snoc c x m w = elim (mem_snoc cs m) [
    | inl old ↦ layered.known c x old w
    | inr e ↦ deps x (subst (λ (y : ScheduledChild). contains y.depends_on x ≡ true) e w)
  ]

  upward_snoc :
      (c d : ScheduledChild)
      → Memᴰ c (cs ++ n ∷ [])
      → Memᴰ d (cs ++ n ∷ [])
      → contains c.depends_on d.task_id ≡ true
      → d.creation_order < c.creation_order
  upward_snoc c d m k w = elim (mem_snoc cs k) [
    | inl old ↦ elim (mem_snoc cs m) [
      | inl before ↦ layered.upward c d before old w
      | inr e ↦ rw e (omega (arith, last, layered.early d old))
    ]
    | inr e ↦
        let missing = subst (λ (y : ScheduledChild). has_child cs y.task_id ≡ false) (sym e) new in
        cc (known_snoc c d.task_id m w)
  ]

  snoc-IsLayered : IsLayered (cs ++ n ∷ [])
  snoc-IsLayered = record {
    early = early_snoc;
    upward = upward_snoc;
    known = λ c x m w. has_child-snoc cs n x (known_snoc c x m w);
  }

submitted :
    (s s' : Scheduler) (id : String) (priority : ℤ) (ds : List String) (awaiting : Bool)
    → submit s id priority ds awaiting ≡ ok s'
    → (has_child s.children id ≡ false)
      × (any (λ d. not (has_child s.children d)) ds ≡ false)
      × (s' ≡ record s {
        children =
            s.children
            ++ record {
              task_id = id;
              priority = priority;
              creation_order = length s.children;
              depends_on = ds;
              awaiting_approval = awaiting;
            }
              ∷ [];
      })
unfolding submit
submitted s s' id priority ds awaiting h = ground arith

pub submit-IsLayered :
    (s s' : Scheduler) (id : String) (priority : ℤ) (ds : List String) (awaiting : Bool)
    → IsLayered s.children
    → submit s id priority ds awaiting ≡ ok s'
    → IsLayered s'.children × (s'.max_children ≡ s.max_children) × (s'.running ≡ s.running)
submit-IsLayered s s' id priority ds awaiting layered h =
    let (new, known, e) = submitted s s' id priority ds awaiting h in
    rw e (
      snoc-IsLayered s.children _ layered refl new (λ x. all_known s.children ds x known),
      refl,
      refl,
    )

-- ===== src/Runtime/Scheduler/Approvals.antt =====
-- An approval keeps the layers.
use mathlib.Core.List.{Memᴰ}
use skail.Prelude.{
  String, ◌≡◌, inl, inr, refl, false, List, [], ◌∷◌, arith, length, str_eq, Bool-cases, ap, ◌∙◌,
}
use skail.Runtime.Scheduler.State.{ScheduledChild, has_child}
use skail.Runtime.Scheduler.Operations.{approve_child}
use skail.Runtime.Scheduler.Blocking.{IsLayered}

-- The child as it was before its approval.
record Before (cs : List ScheduledChild) (c : ScheduledChild) : Type 0 where
  old : ScheduledChild
  listed : Memᴰ old cs
  same_id : c.task_id ≡ old.task_id
  same_order : c.creation_order ≡ old.creation_order
  same_deps : c.depends_on ≡ old.depends_on

kept : (cs : List ScheduledChild) (c : ScheduledChild) → Memᴰ c cs → Before cs c
kept cs c m = record { old = c; listed = m; same_id = refl; same_order = refl; same_deps = refl }

Before-cons : (cs : List ScheduledChild) (c d : ScheduledChild) → Before cs c → Before (d ∷ cs) c
Before-cons cs c d b = record {
  old = b.old;
  listed = Memᴰ.tail b.listed;
  same_id = b.same_id;
  same_order = b.same_order;
  same_deps = b.same_deps;
}

approved_head :
    (cs : List ScheduledChild) (c d : ScheduledChild)
    → c ≡ record d { awaiting_approval = false }
    → Before (d ∷ cs) c
approved_head cs c d e = record {
  old = d;
  listed = Memᴰ.head refl;
  same_id = ap (λ (x : ScheduledChild). x.task_id) e;
  same_order = ap (λ (x : ScheduledChild). x.creation_order) e;
  same_deps = ap (λ (x : ScheduledChild). x.depends_on) e;
}

in_approved :
    (cs : List ScheduledChild) (c d : ScheduledChild)
    → Memᴰ c (record d { awaiting_approval = false } ∷ cs)
    → Before (d ∷ cs) c
in_approved cs c d (Memᴰ.head e) = approved_head cs c d e
in_approved cs c d (Memᴰ.tail k) = kept (d ∷ cs) c (Memᴰ.tail k)

in_rest :
    (cs rest : List ScheduledChild) (c d : ScheduledChild)
    → (Memᴰ c rest → Before cs c)
    → Memᴰ c (d ∷ rest)
    → Before (d ∷ cs) c
in_rest cs rest c d go (Memᴰ.head e) = kept (d ∷ cs) c (Memᴰ.head e)
in_rest cs rest c d go (Memᴰ.tail k) = Before-cons cs c d (go k)

approve_child-Before :
    (cs : List ScheduledChild) (id : String) (c : ScheduledChild)
    → Memᴰ c (approve_child cs id)
    → Before cs c
unfolding approve_child
approve_child-Before [] id c m = elim m [ ]
approve_child-Before (d ∷ cs) id c m = elim (Bool-cases (str_eq d.task_id id)) [
  | inl here ↦ in_approved cs c d (rw (here, approve_child) at m)
  | inr later ↦
      in_rest cs (approve_child cs id) c d (approve_child-Before cs id c)
        (rw (later, approve_child) at m)
]

length-approve_child :
    (cs : List ScheduledChild) (id : String) → length (approve_child cs id) ≡ length cs
unfolding approve_child
length-approve_child [] id = refl
length-approve_child (c ∷ cs) id = ground (arith, length-approve_child cs id)

has_child-approve_child :
    (cs : List ScheduledChild) (id x : String) → has_child (approve_child cs id) x ≡ has_child cs x
unfolding approve_child has_child
has_child-approve_child [] id x = refl
has_child-approve_child (c ∷ cs) id x = ground (arith, has_child-approve_child cs id x)

pub approve_child-IsLayered :
    (cs : List ScheduledChild) (id : String) → IsLayered cs → IsLayered (approve_child cs id)
approve_child-IsLayered cs id layered = record {
  early = λ c m.
      let b = approve_child-Before cs id c m in
      omega (arith, layered.early b.old b.listed, b.same_order, length-approve_child cs id);
  upward = λ c d m k w.
      let b = approve_child-Before cs id c m in
      let a = approve_child-Before cs id d k in
      omega (
        arith,
        b.same_order,
        a.same_order,
        layered.upward b.old a.old b.listed a.listed (rw (b.same_deps, a.same_id) at w),
      );
  known = λ c x m w.
      let b = approve_child-Before cs id c m in
      has_child-approve_child cs id x ∙ layered.known b.old x b.listed (rw b.same_deps at w);
}

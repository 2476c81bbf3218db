-- ===== src/Runtime/Leases.antt =====
-- src/skail/runtime/leases.py: `WorkspaceLeaseManager`, the lease on the workspace that one owner
-- holds at a time, and that this owner may take again.
pub mod Exclusion
use skail.Prelude.{
  ℕ, zero, String, Bool, true, false, ◌||◌, Option, none, some, List, str_eq, if◌then◌else◌, any,
  not,
}
use skail.Prelude.Int.{ℤ, pos, ◌+ℤ◌, ◌-ℤ◌}

pub data SideEffect : Type 0 where
  read_only workspace_write external_write unknown : SideEffect

abbrev is_read_only : SideEffect → Bool
is_read_only SideEffect.read_only = true
is_read_only _ = false

unfoldable write_capable : List SideEffect → Bool
write_capable side_effects = any (λ e. not (is_read_only e)) side_effects

pub record Lease : Type 0 where
  pub holder : Option String
  pub depth : ℤ

unfoldable pub fresh : Lease
fresh = record { holder = none; depth = pos 0 }

-- `self._holder in {None, owner}`
unfoldable pub is_open_to : Lease → String → Bool
is_open_to l owner = elim l.holder [ none ↦ true | some h ↦ str_eq h owner ]

-- `self._holder == owner`
unfoldable pub is_held_by : Lease → String → Bool
is_held_by l owner = elim l.holder [ none ↦ false | some h ↦ str_eq h owner ]

-- How a call of `_acquire` stands when its condition is tested.
pub data Wait : Type 0 where
  waiting refused : Wait
  acquired : Lease → Wait

unfoldable pub try_acquire : Lease → String → Bool → Wait
try_acquire l owner cancelled =
    if cancelled
    then refused
    else if is_open_to l owner
    then acquired (record { holder = some owner; depth = l.depth +ℤ pos 1 })
    else waiting

abbrev is_zero : ℤ → Bool
is_zero (pos zero) = true
is_zero _ = false

unfoldable pub release : Lease → String → Lease
release l owner =
    let depth = l.depth -ℤ pos 1 in
    if is_held_by l owner
    then record { holder = if is_zero depth then none else l.holder; depth = depth }
    else l

-- The Boolean is the answer of the call.
unfoldable pub recover_stale : Lease → String → Lease × Bool
recover_stale l owner =
    if is_held_by l owner then (record { holder = none; depth = pos 0 }, true) else (l, false)

-- `acquire` when its task is cancelled: what its thread has acquired meanwhile is given back
unfoldable pub abandon : Lease → String → Wait → Lease
abandon l owner (acquired l') = release l' owner
abandon l owner _ = l

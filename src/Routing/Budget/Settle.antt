-- ===== src/Routing/Budget/Settle.antt =====
-- `BudgetLedger.settle`: usage takes the place of a reservation.
use skail.Prelude.{
  ℕ, String, Bool, true, false, ◌&&◌, not, Option, none, some, List, [], ◌∷◌, ◌++◌, str_eq,
  if◌then◌else◌, leb, Result, ok, err, ◌>>=◌, any,
}
use skail.Routing.Budget.Tables.{
  reserved, settled, authoritative_actual, conservative_estimate, Reservation, UsageRecord, Tables,
  LedgerError, unknown_key, idempotency_conflict, reservation_state, unresolved_cost,
  integrity_error, NormalizedUsage, status_eq, authority_eq,
}
use skail.Routing.Budget.Operations.{
  Percent, update_warning, find_reservation, set_status, find_usage, set_usage,
}

-- the arguments of `settle`
pub record Settlement : Type 0 where
  pub reservation_id : String
  pub usage_id : String
  pub usage : NormalizedUsage
  pub idempotency_key : String

abbrev is_authoritative : Settlement → Bool
is_authoritative q = authority_eq q.usage.authority authoritative_actual

-- `tuple(existing) == values`
unfoldable pub same_usage : UsageRecord → Settlement → ℕ → Bool
same_usage u q cost =
    str_eq u.usage_id q.usage_id
    && (leb u.amount_usd cost
        && (leb cost u.amount_usd
            && (authority_eq u.authority q.usage.authority
                && ((if u.authoritative then is_authoritative q else not (is_authoritative q))
                    && str_eq u.idempotency_key q.idempotency_key))))

abbrev same_identity : UsageRecord → Settlement → Bool
same_identity u q = str_eq u.usage_id q.usage_id && str_eq u.idempotency_key q.idempotency_key

-- an estimate may give way to the authoritative cost
abbrev upgrades : UsageRecord → Settlement → Bool
upgrades u q = not u.authoritative && (is_authoritative q && same_identity u q)

-- and a conservative estimate may grow
abbrev pub raises : UsageRecord → Settlement → ℕ → Bool
raises u q cost =
    not u.authoritative
    && (authority_eq q.usage.authority conservative_estimate
        && (same_identity u q && leb u.amount_usd cost))

unfoldable pub rewrite_usage :
    Percent → Settlement → ℕ → Bool → String → Tables → Result LedgerError Tables
rewrite_usage p q cost auth run_id db = do
  warned ←
      update_warning p
        (record db {
          usage_records = set_usage q.reservation_id cost auth q.usage.authority db.usage_records;
        })
        run_id
  ok warned.0

unfoldable pub resettle :
    Percent → Settlement → ℕ → UsageRecord → String → Tables → Result LedgerError Tables
resettle p q cost u run_id db =
    if same_usage u q cost
    then ok db
    else if upgrades u q
    then rewrite_usage p q cost true run_id db
    else if raises u q cost
    then rewrite_usage p q cost false run_id db
    else err (idempotency_conflict q.idempotency_key)

abbrev pub usage_row : Settlement → ℕ → Reservation → UsageRecord
usage_row q cost r = record {
  usage_id = q.usage_id;
  run_id = r.run_id;
  task_id = r.task_id;
  amount_usd = cost;
  authoritative = is_authoritative q;
  authority = q.usage.authority;
  idempotency_key = q.idempotency_key;
  reservation_id = some q.reservation_id;
}

-- the primary key and the unique key of `usage_records`
unfoldable admits_usage : Settlement → List UsageRecord → Bool
admits_usage q rows =
    not (any (λ (u : UsageRecord). str_eq u.usage_id q.usage_id) rows)
    && not (any (λ (u : UsageRecord). str_eq u.idempotency_key q.idempotency_key) rows)

abbrev pub settled_tables : Settlement → ℕ → Reservation → Tables → Tables
settled_tables q cost r db = record db {
  usage_records = db.usage_records ++ usage_row q cost r ∷ [];
  reservations = set_status q.reservation_id settled db.reservations;
}

unfoldable pub settle_new :
    Percent → Settlement → ℕ → Reservation → Tables → Result LedgerError Tables
unfolding admits_usage
settle_new p q cost r db =
    if not (status_eq r.status reserved)
    then err (reservation_state r.status)
    else if not (admits_usage q db.usage_records)
    then err integrity_error
    else do warned ← update_warning p (settled_tables q cost r db) r.run_id; ok warned.0

abbrev pub settle_cost :
    Percent → Settlement → Reservation → Option UsageRecord → Tables → ℕ → Result LedgerError Tables
settle_cost p q r none db cost = settle_new p q cost r db
settle_cost p q r (some u) db cost = resettle p q cost u r.run_id db

unfoldable pub settle : Percent → Settlement → Tables → Result LedgerError Tables
settle p q db = elim (find_reservation q.reservation_id db.reservations) [
  | none ↦ err (unknown_key q.reservation_id)
  | some r ↦ elim q.usage.cost_usd [
    | none ↦ err unresolved_cost
    | some cost ↦ settle_cost p q r (find_usage q.reservation_id db.usage_records) db cost
  ]
]

-- ===== src/Tui/Projection/Transcripts.antt =====
-- `_add_transcript_item`, `add_run_answer`, `toggle_collapse`, `mark_seen` and `note_receipt`.
use skail.Prelude.{
  ℕ, zero, suc, ◌+◌, ◌-◌, ◌*◌, ◌/◌, String, Bool, true, false, ◌&&◌, not, Option, none, some, ltb,
  length, List, [], ◌∷◌, ◌++◌, ◌≤◌, ◌≡◌, refl, arith, str_eq, if◌then◌else◌, inl, inr, Bool-cases,
  sum_where, eq_iff, str_append,
}
use skail.Prelude.Sets.{contains}
use skail.Tui.Projection.State.{lead, TranscriptItem, Projection, projection}

-- `f"tx-{uuid4().hex[:12]}"` for an item without an identity: the text is an argument
abbrev pub identified : String → TranscriptItem → TranscriptItem
identified fresh_id item = if str_eq item.id "" then record item { id = fresh_id } else item

abbrev add_identified : TranscriptItem → Projection → Bool × Projection
add_identified item p = if contains p.seen_transcript_ids item.id then (false, p) else (
  true,
  record p {
    seen_transcript_ids = item.id ∷ p.seen_transcript_ids;
    transcript_items = p.transcript_items ++ item ∷ [];
    unread = p.unread + 1;
  },
)

-- `_add_transcript_item`
unfoldable pub add_transcript_item : String → TranscriptItem → Projection → Bool × Projection
add_transcript_item fresh_id item p = add_identified (identified fresh_id item) p

-- `str(n)`; a number has no more digits than its value and one
abbrev digit_of : List String → ℕ → String
digit_of [] n = ""
digit_of (d ∷ ds) zero = d
digit_of (d ∷ ds) (suc n) = digit_of ds n

abbrev digit : ℕ → String
digit = digit_of ("0" ∷ "1" ∷ "2" ∷ "3" ∷ "4" ∷ "5" ∷ "6" ∷ "7" ∷ "8" ∷ "9" ∷ [])

unfoldable pub decimal_from : ℕ → ℕ → String → String
decimal_from zero n text = text
decimal_from (suc fuel) n text =
    let more = str_append (digit (n - n / 10 * 10)) text in
    let rest = decimal_from fuel (n / 10) more in if ltb n 10 then more else rest

abbrev pub decimal : ℕ → String
decimal n = decimal_from (n + 1) n ""

-- `add_run_answer`, with the defaults of `TranscriptItem`
abbrev answer_id : Option String → Projection → String
answer_id (some run_id) p = str_append "run-answer:" run_id
answer_id none p = str_append "lead-" (decimal (length p.transcript_items))

abbrev pub answer_item : Option String → Projection → TranscriptItem
answer_item run_id p = record {
  id = answer_id run_id p;
  role = lead;
  collapsed = false;
  can_collapse = true;
}

unfoldable pub add_run_answer : String → Option String → String → Projection → Bool × Projection
add_run_answer fresh_id run_id answer p =
    if str_eq answer "" then (false, p) else add_transcript_item fresh_id (answer_item run_id p) p

-- `mark_seen`
abbrev mark_seen : Projection → Projection
mark_seen p = record p { unread = 0 }

-- `note_receipt`
abbrev note_receipt : String → Projection → Projection
note_receipt text p = record p { receipts = p.receipts ++ text ∷ []; unread = p.unread + 1 }

abbrev flipped : TranscriptItem → TranscriptItem
flipped item = record item { collapsed = not item.collapsed }

-- the loop of `toggle_collapse`: what it returns, and the items
unfoldable pub toggle : String → List TranscriptItem → Bool × List TranscriptItem
toggle item_id [] = (false, [])
toggle item_id (item ∷ items) =
    let rest = toggle item_id items in
    if str_eq item.id item_id && item.can_collapse
    then (not item.collapsed, flipped item ∷ items)
    else (rest.0, item ∷ rest.1)

abbrev toggle_collapse : String → Projection → Bool × Projection
toggle_collapse item_id p =
    let r = toggle item_id p.transcript_items in (r.0, record p { transcript_items = r.1 })

-- the calls that reach the transcript
pub data TranscriptCall : Type 0 where
  adds : String → TranscriptItem → TranscriptCall
  answers : String → Option String → String → TranscriptCall
  toggles : String → TranscriptCall
  notes : String → TranscriptCall
  sees : TranscriptCall

unfoldable pub transcript_call : TranscriptCall → Projection → Projection
transcript_call (adds fresh_id item) p = (add_transcript_item fresh_id item p).1
transcript_call (answers fresh_id run_id answer) p = (add_run_answer fresh_id run_id answer p).1
transcript_call (toggles item_id) p = (toggle_collapse item_id p).1
transcript_call (notes text) p = note_receipt text p
transcript_call sees p = mark_seen p

unfoldable pub transcript_calls : List TranscriptCall → Projection → Projection
transcript_calls [] p = p
transcript_calls (c ∷ calls) p = transcript_calls calls (transcript_call c p)

unfoldable pub count_id : String → List TranscriptItem → ℕ
count_id id = sum_where (λ item. 1) (λ item. str_eq item.id id)

count_id-append :
    (id : String) (item : TranscriptItem) (items : List TranscriptItem)
    → count_id id (items ++ item ∷ []) ≡ count_id id items + (if str_eq item.id id then 1 else 0)
unfolding count_id
count_id-append id item [] = ground arith
count_id-append id item (i ∷ items) = ground (arith, count_id-append id item items)

count_id-toggle :
    (id item_id : String) (items : List TranscriptItem)
    → count_id id (toggle item_id items).1 ≡ count_id id items
unfolding count_id toggle
count_id-toggle id item_id [] = refl
count_id-toggle id item_id (i ∷ items) = ground (arith, count_id-toggle id item_id items)

-- An item is shown once when its identity was seen, and else not at all.
abbrev IsOnce : Projection → Type 0
IsOnce p =
    (id : String)
    → count_id id p.transcript_items ≡ (if contains p.seen_transcript_ids id then 1 else 0)

identified-IsOnce :
    (item : TranscriptItem) (p : Projection) → IsOnce p → IsOnce (add_identified item p).1
unfolding contains
identified-IsOnce item p once id = elim (Bool-cases (contains p.seen_transcript_ids item.id)) [
  | inl e ↦ rw e (once id)
  | inr e ↦ ground (
    arith,
    once id,
    once item.id,
    count_id-append id item p.transcript_items,
    eq_iff item.id id,
    e,
  )
]

add-IsOnce :
    (fresh_id : String) (item : TranscriptItem) (p : Projection)
    → IsOnce p
    → IsOnce (add_transcript_item fresh_id item p).1
unfolding add_transcript_item
add-IsOnce fresh_id item p once = identified-IsOnce (identified fresh_id item) p once

answer-IsOnce :
    (fresh_id : String) (run_id : Option String) (answer : String) (p : Projection)
    → IsOnce p
    → IsOnce (add_run_answer fresh_id run_id answer p).1
unfolding add_run_answer
answer-IsOnce fresh_id run_id answer p once = elim (Bool-cases (str_eq answer "")) [
  | inl e ↦ rw e once
  | inr e ↦ rw e (add-IsOnce fresh_id (answer_item run_id p) p once)
]

call-IsOnce : (c : TranscriptCall) (p : Projection) → IsOnce p → IsOnce (transcript_call c p)
unfolding transcript_call
call-IsOnce (adds fresh_id item) p once = add-IsOnce fresh_id item p once
call-IsOnce (answers fresh_id run_id answer) p once = answer-IsOnce fresh_id run_id answer p once
call-IsOnce (toggles item_id) p once =
    λ id. rw (count_id-toggle id item_id p.transcript_items) (once id)
call-IsOnce (notes text) p once = once
call-IsOnce sees p once = once

calls-IsOnce :
    (calls : List TranscriptCall) (p : Projection) → IsOnce p → IsOnce (transcript_calls calls p)
unfolding transcript_calls
calls-IsOnce [] p once = once
calls-IsOnce (c ∷ calls) p once = calls-IsOnce calls _ (call-IsOnce c p once)

fresh-IsOnce : IsOnce projection
unfolding contains count_id
fresh-IsOnce id = refl

add_refused :
    (fresh_id : String) (item : TranscriptItem) (p : Projection)
    → contains p.seen_transcript_ids (identified fresh_id item).id ≡ true
    → add_transcript_item fresh_id item p ≡ (false, p)
unfolding add_transcript_item
add_refused fresh_id item p seen = rw seen refl

-- However transcript calls follow each other on a fresh projection, an identity is shown exactly
-- once if it has been seen and not at all otherwise; and a further item is refused, and changes
-- nothing, when its identity, which is drawn for an item that has none, is shown already.
pub transcript_shows_once :
    (calls : List TranscriptCall) (fresh_id : String) (item : TranscriptItem)
    → let p = transcript_calls calls projection in
      let id = (identified fresh_id item).id in
      (count_id id p.transcript_items ≡ (if contains p.seen_transcript_ids id then 1 else 0))
      × (1 ≤ count_id id p.transcript_items → add_transcript_item fresh_id item p ≡ (false, p))
transcript_shows_once calls fresh_id item =
    let once = calls-IsOnce calls projection fresh-IsOnce (identified fresh_id item).id in
    (once, (λ h. add_refused fresh_id item _ (ground (arith, once, h))))

-- ===== src/Tui/Projection/Queues.antt =====
-- The queue of follow-up prompts: `queue_followup` and `take_back_newest`.
use skail.Prelude.{String, Option, none, some, List, [], ◌∷◌, ◌++◌, ◌≡◌, refl}
use skail.Tui.Projection.State.{Projection}

-- `queue_followup`
unfoldable pub queue_followup : String → Projection → Projection
queue_followup text p = record p { queue = p.queue ++ text ∷ [] }

-- `list.pop()`: the last element, and the others
unfoldable pub pop_last : String → List String → String × List String
pop_last x [] = (x, [])
pop_last x (y ∷ queue) = let r = pop_last y queue in (r.0, x ∷ r.1)

-- `take_back_newest`
abbrev taken : Projection → List String → Option String × Projection
taken p [] = (none, p)
taken p (x ∷ queue) = let r = pop_last x queue in (some r.0, record p { queue = r.1 })

unfoldable pub take_back_newest : Projection → Option String × Projection
take_back_newest p = taken p p.queue

pop_last-append :
    (x text : String) (queue : List String) → pop_last x (queue ++ text ∷ []) ≡ (text, x ∷ queue)
unfolding pop_last
pop_last-append x text [] = refl
pop_last-append x text (y ∷ queue) = rw (pop_last-append y text queue) refl

taken-append :
    (p : Projection) (text : String) (queue : List String)
    → taken p (queue ++ text ∷ []) ≡ (some text, record p { queue = queue })
unfolding pop_last
taken-append p text [] = refl
taken-append p text (x ∷ queue) = rw (pop_last-append x text queue) refl

-- Taking the newest follow-up back right after it was queued returns its text, and leaves the
-- projection as it was before it was queued.
pub take_back_newest-queue_followup :
    (text : String) (p : Projection) → take_back_newest (queue_followup text p) ≡ (some text, p)
unfolding take_back_newest queue_followup
take_back_newest-queue_followup text p = taken-append _ text p.queue

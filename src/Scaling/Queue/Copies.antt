-- ===== src/Scaling/Queue/Copies.antt =====
-- How many copies of an item id a worker queue holds, and how each write changes their number.
use flowhunt_voicebot.Base.{
  ℕ, ◌+◌, ◌≡◌, sym, ap, ◌∙◌, String, Bool, true, false, Option, some, List, [], ◌∷◌, ◌++◌, count_if,
  count_if-append, text_key, ◌==◌, arith,
}
use flowhunt_voicebot.Base.Dict
use flowhunt_voicebot.Base.Dict.{Dict}
use flowhunt_voicebot.Scaling.Envelope.{Envelope}
use flowhunt_voicebot.Scaling.Queue.Order.{pop_next_by_priority, pop_next_by_priority-IsNext}
use flowhunt_voicebot.Scaling.Queue.{Store, items_of, push_back, push_front}

abbrev pub is_item : String → Envelope → Bool
is_item id e = e.item_id == id

unfoldable pub pending_copies : String → Dict String (List Envelope) → ℕ
pending_copies id [] = 0
pending_copies id ((queue, items) ∷ d) = count_if (is_item id) items + pending_copies id d

-- Writing a deque back changes the copies by what it gained and lost.
pub pending_copies-put :
    (id : String) (d : Dict String (List Envelope)) (queue : String) (items : List Envelope)
    → pending_copies id (Dict.put d queue items) + count_if (is_item id) (items_of d queue)
      ≡ pending_copies id d + count_if (is_item id) items
unfolding pending_copies Dict.put Dict.get
pending_copies-put id [] queue items = omega arith
pending_copies-put id ((q, old) ∷ d) queue items =
    ground (arith, pending_copies-put id d queue items)

-- The copies of an id anywhere in a store.
abbrev pub copies : String → Store → ℕ
copies id s = pending_copies id s.pending + Dict.occurs s.claimed id + Dict.occurs s.dead_letter id

abbrev pub one_if : Bool → ℕ
one_if true = 1
one_if false = 0

pub pending_copies-push_back :
    (id : String) (s : Store) (e : Envelope)
    → pending_copies id (push_back s e).pending
      ≡ pending_copies id s.pending + one_if (is_item id e)
unfolding push_back
pending_copies-push_back id s e =
    let old = items_of s.pending e.queue in
    ground (
      arith,
      pending_copies-put id s.pending e.queue (old ++ (e ∷ [])),
      count_if-append (is_item id) old (e ∷ []),
    )

pub pending_copies-push_front :
    (id : String) (s : Store) (e : Envelope)
    → pending_copies id (push_front s e).pending
      ≡ pending_copies id s.pending + one_if (is_item id e)
unfolding push_front
pending_copies-push_front id s e =
    let old = items_of s.pending e.queue in
    ground (arith, pending_copies-put id s.pending e.queue (e ∷ old))

count_if-split :
    (p : Envelope → Bool) (xs : List Envelope) (e : Envelope) (ys : List Envelope)
    → count_if p (xs ++ (e ∷ ys)) ≡ count_if p (xs ++ ys) + one_if (p e)
count_if-split p xs e ys = ground (arith, count_if-append p xs (e ∷ ys), count_if-append p xs ys)

-- Popping the next item takes one copy of its id and no other out of the deque.
pub count_if-pop_next :
    (p : Envelope → Bool) (l rest : List Envelope) (e : Envelope)
    → pop_next_by_priority l ≡ some (e, rest)
    → count_if p l ≡ count_if p rest + one_if (p e)
unfolding pop_next_by_priority
count_if-pop_next p [] rest e h = cc
count_if-pop_next p (first ∷ others) rest e h =
    let (e', rest', popped, (xs, ys, split, left, _, _)) =
      pop_next_by_priority-IsNext first others in
    let same : ◌≡◌ {A = Option (Envelope × List Envelope)} (some (e', rest')) (some (e, rest)) =
      sym popped ∙ h in
    let item : e' ≡ e = cc in
    let others_left : rest' ≡ rest = cc in
    ap (count_if p) split
    ∙ count_if-split p xs e' ys
    ∙ cc (ap (count_if p) (sym left ∙ others_left), ap (λ x. one_if (p x)) item)

-- ===== src/Scaling/Queue/Order.antt =====
-- `_pop_next_by_priority` of voicebot/scaling.py: the scan for the best rank and the two rotations
-- of the deque, and what they select.
use flowhunt_voicebot.Base.{
  ℕ, zero, suc, ◌≤◌, ◌<◌, ◌≡◌, refl, sym, ap, ◌∙◌, true, false, inl, inr, Option, none, some, List,
  [], ◌∷◌, ◌++◌, append-nil, append_assoc, length, All, All-append, length-append, ltb, eqb,
  Bool-cases, ltb→lt, ltb-false→le, eqb_iff, subst, arith,
}
use flowhunt_voicebot.Scaling.Envelope.{Envelope, rank}

-- `deque.rotate(-n)`
unfoldable pub rotate_left {ℓ} : {A : Type ℓ} → ℕ → List A → List A
rotate_left zero l = l
rotate_left (suc n) [] = []
rotate_left (suc n) (x ∷ xs) = rotate_left n (xs ++ (x ∷ []))

-- The last item moved to the front, once.
unfoldable pub last_first {ℓ} : {A : Type ℓ} → List A → List A
last_first [] = []
last_first (x ∷ xs) = elim (last_first xs) [ [] ↦ x ∷ [] | y ∷ ys ↦ y ∷ x ∷ ys ]

-- `deque.rotate(n)`
unfoldable pub rotate_right {ℓ} : {A : Type ℓ} → ℕ → List A → List A
unfolding last_first
rotate_right zero l = l
rotate_right (suc n) l = rotate_right n (last_first l)

-- The `for` loop, from index `i` with the best index and rank so far; rank 0 breaks.
unfoldable pub best_from : ℕ → ℕ → ℕ → List Envelope → ℕ
best_from i best_index best_rank [] = best_index
best_from i best_index best_rank (e ∷ es) = elim (ltb (rank e) best_rank) [
  | false ↦ best_from (suc i) best_index best_rank es
  | true ↦ elim (eqb (rank e) 0) [ true ↦ i | false ↦ best_from (suc i) i (rank e) es ]
]

-- Rotate the best index to the front, pop it, rotate back.
unfoldable pub pop_at : ℕ → List Envelope → Option (Envelope × List Envelope)
unfolding rotate_left rotate_right
pop_at best_index pending = elim (rotate_left best_index pending) [
  | [] ↦ none
  | e ∷ rest ↦ some (e, rotate_right best_index rest)
]

-- `none` on the empty deque, on which the callers do not call it.
unfoldable pub pop_next_by_priority : List Envelope → Option (Envelope × List Envelope)
unfolding best_from pop_at
pop_next_by_priority [] = none
pop_next_by_priority (e ∷ es) = pop_at (best_from 0 0 (rank e) (e ∷ es)) (e ∷ es)

rotate_left-append {ℓ} :
    {A : Type ℓ} (xs ys : List A) → rotate_left (length xs) (xs ++ ys) ≡ ys ++ xs
unfolding rotate_left
rotate_left-append [] ys = sym (append-nil ys)
rotate_left-append (x ∷ xs) ys =
    ap (rotate_left (length xs)) (append_assoc xs ys (x ∷ []))
    ∙ rotate_left-append xs (ys ++ (x ∷ []))
    ∙ append_assoc ys (x ∷ []) xs

last_first-append {ℓ} : {A : Type ℓ} (xs : List A) (x : A) → last_first (xs ++ (x ∷ [])) ≡ x ∷ xs
unfolding last_first
last_first-append [] x = refl
last_first-append (y ∷ xs) x = rw (last_first-append xs x, last_first) refl

rotate_right-last_first {ℓ} :
    {A : Type ℓ} (n : ℕ) (l : List A)
    → rotate_right n (last_first l) ≡ last_first (rotate_right n l)
unfolding rotate_right
rotate_right-last_first zero l = refl
rotate_right-last_first (suc n) l = rotate_right-last_first n (last_first l)

rotate_right-append {ℓ} :
    {A : Type ℓ} (ys xs : List A) → rotate_right (length xs) (ys ++ xs) ≡ xs ++ ys
unfolding rotate_right
rotate_right-append ys [] = append-nil ys
rotate_right-append ys (x ∷ xs) =
    rotate_right-last_first (length xs) (ys ++ (x ∷ xs))
    ∙ ap (λ l. last_first (rotate_right (length xs) l)) (sym (append_assoc ys (x ∷ []) xs))
    ∙ ap last_first (rotate_right-append (ys ++ (x ∷ [])) xs ∙ sym (append_assoc xs ys (x ∷ [])))
    ∙ last_first-append (xs ++ ys) x

-- A split of a deque at its item of index `b` and rank `r`: all before it rank strictly worse,
-- none after it ranks better.
abbrev pub IsBest : List Envelope → ℕ → ℕ → Type 0
IsBest l b r =
    (xs : List Envelope) × (e : Envelope) × (ys : List Envelope) × (l ≡ xs ++ (e ∷ ys))
    × (length xs ≡ b)
    × (rank e ≡ r)
    × All (λ x. r < rank x) xs
    × All (λ y. r ≤ rank y) ys

All-weaken :
    (r n : ℕ) (l : List Envelope) → n < r → All (λ y. r ≤ rank y) l → All (λ y. n < rank y) l
All-weaken r n [] h a = tt
All-weaken r n (x ∷ l) h a = (omega arith, All-weaken r n l h a.1)

All-strict :
    (r n : ℕ) (l : List Envelope) → n < r → All (λ y. r < rank y) l → All (λ y. n < rank y) l
All-strict r n [] h a = tt
All-strict r n (x ∷ l) h a = (omega arith, All-strict r n l h a.1)

All-least : (l : List Envelope) (r : ℕ) → r ≡ 0 → All (λ y. r ≤ rank y) l
All-least [] r h = tt
All-least (x ∷ l) r h = (omega arith, All-least l r h)

IsBest-below : (l : List Envelope) (b r n : ℕ) → IsBest l b r → n < r → All (λ y. n < rank y) l
IsBest-below l b r n (xs, e, ys, split, at, best, before, after) h =
    subst (All (λ y. n < rank y)) (sym split) (
      All-append (λ y. n < rank y) xs (e ∷ ys) (All-strict r n xs h before)
        (omega arith, All-weaken r n ys h after))

-- One more item that does not rank better leaves the best where it is.
IsBest-snoc :
    (l : List Envelope) (b r : ℕ) (x : Envelope)
    → IsBest l b r
    → r ≤ rank x
    → IsBest (l ++ (x ∷ [])) b r
IsBest-snoc l b r x (xs, e, ys, split, at, best, before, after) h = (
  xs,
  e,
  ys ++ (x ∷ []),
  ap (λ k. k ++ (x ∷ [])) split ∙ append_assoc xs (e ∷ ys) (x ∷ []),
  at,
  best,
  before,
  All-append (λ y. r ≤ rank y) ys (x ∷ []) after (h, tt),
)

best_from-IsBest :
    (es pre : List Envelope) (i b r : ℕ)
    → length pre ≡ i
    → IsBest pre b r
    → (n : ℕ) × (IsBest (pre ++ es) (best_from i b r es) n)
unfolding best_from
best_from-IsBest [] pre i b r at h = (r, subst (λ l. IsBest l b r) (sym (append-nil pre)) h)
best_from-IsBest (e ∷ es) pre i b r at h =
    let longer : length (pre ++ (e ∷ [])) ≡ suc i = omega (arith, length-append pre (e ∷ []), at) in
    elim (Bool-cases (ltb (rank e) r)) [
      | inl better ↦
          let below = IsBest-below pre b r (rank e) h (ltb→lt _ _ better) in
          elim (Bool-cases (eqb (rank e) 0)) [
            | inl top ↦
                let least = All-least es (rank e) ((eqb_iff _ _).0 top) in
                rw (better, best_from)
                  (rw (top, best_from) (rank e, (pre, e, es, refl, at, refl, below, least)))
            | inr more ↦
                rw (better, best_from)
                  (rw (more, best_from)
                    (subst (λ l. (n : ℕ) × (IsBest l (best_from (suc i) i (rank e) es) n))
                      (append_assoc pre (e ∷ []) es)
                      (best_from-IsBest es (pre ++ (e ∷ [])) (suc i) i (rank e) longer
                        (pre, e, [], refl, at, refl, below, tt))))
          ]
      | inr worse ↦
          rw (worse, best_from)
            (subst (λ l. (n : ℕ) × (IsBest l (best_from (suc i) b r es) n))
              (append_assoc pre (e ∷ []) es)
              (best_from-IsBest es (pre ++ (e ∷ [])) (suc i) b r longer
                (IsBest-snoc pre b r e h (ltb-false→le _ _ worse))))
    ]

-- Popping the best index takes that item out and keeps the order of the others.
pop_at-IsBest :
    (xs : List Envelope) (e : Envelope) (ys : List Envelope)
    → pop_at (length xs) (xs ++ (e ∷ ys)) ≡ some (e, xs ++ ys)
unfolding pop_at
pop_at-IsBest xs e ys =
    rw (rotate_left-append xs (e ∷ ys), pop_at) (rw (rotate_right-append ys xs) refl)

-- The item that a deque gives, and what stays: the earliest of the best rank, the rest in order.
abbrev pub IsNext : List Envelope → Envelope → List Envelope → Type 0
IsNext l e rest =
    (xs : List Envelope) × (ys : List Envelope) × (l ≡ xs ++ (e ∷ ys))
    × (rest ≡ xs ++ ys)
    × All (λ x. rank e < rank x) xs
    × All (λ y. rank e ≤ rank y) ys

pop_at_total :
    (l : List Envelope) (b r : ℕ)
    → IsBest l b r
    → (e : Envelope) × (rest : List Envelope) × (pop_at b l ≡ some (e, rest)) × (IsNext l e rest)
pop_at_total l b r (xs, e, ys, split, at, best, before, after) = (
  e,
  xs ++ ys,
  ap (pop_at b) split ∙ ap (λ n. pop_at n (xs ++ (e ∷ ys))) (sym at) ∙ pop_at-IsBest xs e ys,
  (
    xs,
    ys,
    split,
    refl,
    subst (λ n. All (λ x. n < rank x) xs) (sym best) before,
    subst (λ n. All (λ y. n ≤ rank y) ys) (sym best) after,
  ),
)

-- The loop also visits index 0, which does not beat itself.
best_from_first :
    (e : Envelope) (es : List Envelope)
    → best_from 0 0 (rank e) (e ∷ es) ≡ best_from 1 0 (rank e) es
unfolding best_from
best_from_first e es = ground arith

-- From a deque that is not empty, `_pop_next_by_priority` takes the earliest item of the best
-- rank: every item before it ranks strictly worse and none after it ranks better. The other items
-- stay in their order.
pub pop_next_by_priority-IsNext :
    (first : Envelope) (others : List Envelope)
    → (e : Envelope) × (rest : List Envelope) × (pop_next_by_priority (first ∷ others)
        ≡ some (e, rest))
      × (IsNext (first ∷ others) e rest)
unfolding pop_next_by_priority
pop_next_by_priority-IsNext first others =
    let (n, best) =
      best_from-IsBest others (first ∷ []) 1 0 (rank first) refl
        ([], first, [], refl, refl, refl, tt, tt) in
    let (e, rest, popped, next) =
      pop_at_total (first ∷ others) (best_from 1 0 (rank first) others) n best in
    (e, rest, ap (λ b. pop_at b (first ∷ others)) (best_from_first first others) ∙ popped, next)

-- ===== src/SpeculativeTurns/Replacing.antt =====
-- Lists of candidates of which one is replaced.
use flowhunt_voicebot.Base.{
  ℕ, ◌≡◌, ◌≢◌, sym, ap, subst, ◌∙◌, String, false, List, [], ◌∷◌, ◌++◌, All, All-append, or_default,
  nat_key, text_key, ◌==◌, eq_iff, arith, Bool-cases, inl, inr,
}
use flowhunt_voicebot.Base.Dict
use flowhunt_voicebot.Base.Dict.{Dict}
use flowhunt_voicebot.Base.Dict.Entries.{Distinct}
use flowhunt_voicebot.SpeculativeTurns.{Candidate, is_open, replace_first}

abbrev pub task_of : Candidate → String
task_of c = c.task_id

abbrev pub IsClosed : Candidate → Type 0
IsClosed c = is_open c.status ≡ false

-- A list of candidates with the items before `c` behind it.
pub replace_first-append :
    (done cs : List Candidate) (c r : Candidate)
    → All (λ d. d.task_id ≢ r.task_id) done
    → c.task_id ≡ r.task_id
    → replace_first (done ++ (c ∷ cs)) r ≡ done ++ (r ∷ cs)
unfolding replace_first
replace_first-append [] cs c r other same = ground (arith, same, eq_iff c.task_id r.task_id)
replace_first-append (d ∷ ds) cs c r other same =
    ground (arith, eq_iff d.task_id r.task_id, other.0, replace_first-append ds cs c r other.1 same)

-- The candidates of a turn after one of them is replaced.
pub put-replace_first :
    (d : Dict ℕ (List Candidate)) (r : Candidate) (turn : ℕ)
    → r.turn_id ≡ turn
    → or_default
        (Dict.get
          (Dict.put d r.turn_id (replace_first (or_default (Dict.get d r.turn_id) []) r))
          turn)
        []
      ≡ replace_first (or_default (Dict.get d turn) []) r
put-replace_first d r turn same =
    let new = replace_first (or_default (Dict.get d r.turn_id) []) r in
    ap (λ k. or_default (Dict.get (Dict.put d r.turn_id new) k) []) (sym same)
    ∙ ap (λ o. or_default o []) (Dict.get-put_self d r.turn_id new)
    ∙ ap (λ k. replace_first (or_default (Dict.get d k) []) r) same

pub All-replace_first :
    (P : Candidate → Type 0) (cs : List Candidate) (r : Candidate)
    → All P cs
    → P r
    → All P (replace_first cs r)
unfolding replace_first
All-replace_first P [] r h new = (new, tt)
All-replace_first P (c ∷ cs) r h new = elim (Bool-cases (c.task_id == r.task_id)) [
  | inl hit ↦ rw hit (new, h.1)
  | inr miss ↦ rw miss (h.0, All-replace_first P cs r h.1 new)
]

pub Distinct-replace_first :
    (cs : List Candidate) (r : Candidate)
    → Distinct task_of cs
    → Distinct task_of (replace_first cs r)
unfolding replace_first
Distinct-replace_first [] r h = (tt, tt)
Distinct-replace_first (c ∷ cs) r h = elim (Bool-cases (c.task_id == r.task_id)) [
  | inl hit ↦
      let same = (eq_iff c.task_id r.task_id).0 hit in
      rw hit (subst (λ k. All (λ (y : Candidate). y.task_id ≢ k) cs) same h.0, h.1)
  | inr miss ↦ rw miss (
    All-replace_first (λ y. y.task_id ≢ c.task_id) cs r h.0
        (λ e. cc (miss, (eq_iff c.task_id r.task_id).1 (sym e))),
    Distinct-replace_first cs r h.1,
  )
]

All-absurd :
    (P : Candidate → Type 0) (cs : List Candidate) (k : String)
    → All (λ y. y.task_id ≢ k) cs
    → All (λ y. y.task_id ≡ k → P y) cs
All-absurd P [] k h = tt
All-absurd P (c ∷ cs) k h = ((λ e. absurd (h.0 e)), All-absurd P cs k h.1)

-- The only candidate with the task of the replacement is the replacement.
pub replace_first-only :
    (P : Candidate → Type 0) (cs : List Candidate) (r : Candidate)
    → Distinct task_of cs
    → P r
    → All (λ y. y.task_id ≡ r.task_id → P y) (replace_first cs r)
unfolding replace_first
replace_first-only P [] r h new = ((λ e. new), tt)
replace_first-only P (c ∷ cs) r h new = elim (Bool-cases (c.task_id == r.task_id)) [
  | inl hit ↦
      let same = (eq_iff c.task_id r.task_id).0 hit in
      rw hit (
        (λ e. new),
        All-absurd P cs r.task_id (subst (λ k. All (λ (y : Candidate). y.task_id ≢ k) cs) same h.0),
      )
  | inr miss ↦
      rw miss
        ((λ e. cc (miss, (eq_iff c.task_id r.task_id).1 e)), replace_first-only P cs r h.1 new)
]

-- Each item of the second list has another task than each of the first.
abbrev pub Apart : List Candidate → List Candidate → Type 0
Apart done cs = All (λ c. All (λ d. d.task_id ≢ c.task_id) done) cs

pub All-Apart_nil : (cs : List Candidate) → Apart [] cs
All-Apart_nil [] = tt
All-Apart_nil (c ∷ cs) = (tt, All-Apart_nil cs)

pub Apart-next :
    (done cs : List Candidate) (x c : Candidate)
    → x.task_id ≡ c.task_id
    → Apart done cs
    → All (λ y. y.task_id ≢ c.task_id) cs
    → Apart (done ++ (x ∷ [])) cs
Apart-next done [] x c same h new = tt
Apart-next done (y ∷ ys) x c same h new = (
  All-append (λ d. d.task_id ≢ y.task_id) done (x ∷ []) h.0 ((λ e. new.0 (sym e ∙ same)), tt),
  Apart-next done ys x c same h.1 new.1,
)

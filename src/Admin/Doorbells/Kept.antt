-- ===== src/Admin/Doorbells/Kept.antt =====
-- What a pass over the doorbells keeps, and doorbells that are not pending.
use wild_cat.Common.{
  eq_of_test, ℕ, ◌+◌, ◌*◌, ◌%◌, ◌≤◌, ◌<◌, ◌≡◌, refl, sym, ap, ◌∙◌, ◌⊎◌, inl, inr, true, Bool-cases,
  Option, none, some, ◌==◌, update, arith,
}
use wild_cat.WorkQueue.Service.{SqStat}
use wild_cat.Admin.State.{SubmissionQueue, CreatedQueue, Controller}
use wild_cat.Admin.Doorbells.{with_stat}

-- the size of a queue that exists
abbrev pub size_of_sq : Option SubmissionQueue → Option ℕ
size_of_sq none = none
size_of_sq (some q) = some q.queue_size

abbrev pub size_of_cq : Option CreatedQueue → Option ℕ
size_of_cq none = none
size_of_cq (some q) = some q.queue.queue_size

-- both values of a doorbell lie inside the queue
abbrev pub Inside : Controller → ℕ → ℕ → Type 0
Inside c i d = (c.dbs i < d) × (c.old_dbs i < d)

-- The doorbells of the queues that exist lie inside them, and where that of a completion queue passes
-- the end, the last page of the queue is not full.
pub record AreInside (c : Controller) : Type 0 where
  pub sqs : (qid d : ℕ) → size_of_sq (c.sqes qid) ≡ some d → Inside c (qid * 2) d
  pub cqs : (qid d : ℕ) → size_of_cq (c.cqes qid) ≡ some d → Inside c (qid * 2 + 1) d
  pub cq_ends :
      (qid d : ℕ)
      → size_of_cq (c.cqes qid) ≡ some d
      → c.dbs (qid * 2 + 1) < c.old_dbs (qid * 2 + 1)
      → 0 < d % 256

-- what a pass keeps: a doorbell is seen as before or as the host has written it
pub record Keeps (c c' : Controller) : Type 0 where
  pub dbs : c'.dbs ≡ c.dbs
  pub seen : (i : ℕ) → (c'.old_dbs i ≡ c.old_dbs i) ⊎ (c'.old_dbs i ≡ c.dbs i)
  pub sq_sizes : (i : ℕ) → size_of_sq (c'.sqes i) ≡ size_of_sq (c.sqes i)
  pub cq_sizes : (i : ℕ) → size_of_cq (c'.cqes i) ≡ size_of_cq (c.cqes i)
  pub nr_sq : c'.nr_sq ≡ c.nr_sq
  pub nr_cq : c'.nr_cq ≡ c.nr_cq

pub Keeps-refl : (c : Controller) → Keeps c c
Keeps-refl c = record {
  dbs = refl;
  seen = λ i. inl refl;
  sq_sizes = λ i. refl;
  cq_sizes = λ i. refl;
  nr_sq = refl;
  nr_cq = refl;
}

seen_twice :
    {a b d e : ℕ} → d ≡ e → (b ≡ a) ⊎ (b ≡ d) → (f : ℕ) → (f ≡ b) ⊎ (f ≡ e) → (f ≡ a) ⊎ (f ≡ d)
seen_twice p (inl x) f (inl y) = inl (y ∙ x)
seen_twice p (inr x) f (inl y) = inr (y ∙ x)
seen_twice p s f (inr y) = inr (y ∙ sym p)

pub Keeps-trans : (a b c : Controller) → Keeps a b → Keeps b c → Keeps a c
Keeps-trans a b c x y = record {
  dbs = y.dbs ∙ x.dbs;
  seen = λ i. seen_twice (ap (λ (f : ℕ → ℕ). f i) (sym x.dbs)) (x.seen i) (c.old_dbs i) (y.seen i);
  sq_sizes = λ i. y.sq_sizes i ∙ x.sq_sizes i;
  cq_sizes = λ i. y.cq_sizes i ∙ x.cq_sizes i;
  nr_sq = y.nr_sq ∙ x.nr_sq;
  nr_cq = y.nr_cq ∙ x.nr_cq;
}

keep-Inside : (c c' : Controller) → Keeps c c' → (i d : ℕ) → Inside c i d → Inside c' i d
keep-Inside c c' k i d (new, old) =
    let at : c'.dbs i ≡ c.dbs i = ap (λ (f : ℕ → ℕ). f i) k.dbs in
    (
      omega (arith, at, new),
      elim (k.seen i) [ inl same ↦ omega (arith, same, old) | inr now ↦ omega (arith, now, new) ],
    )

-- a doorbell that is behind what was seen was so before
keep_behind :
    (c c' : Controller) → Keeps c c' → (i : ℕ) → c'.dbs i < c'.old_dbs i → c.dbs i < c.old_dbs i
keep_behind c c' k i behind =
    let at : c'.dbs i ≡ c.dbs i = ap (λ (f : ℕ → ℕ). f i) k.dbs in
    elim (k.seen i) [
      | inl same ↦ omega (arith, at, same, behind)
      | inr now ↦ absurd (omega (arith, at, now, behind))
    ]

pub keep-AreInside : (c c' : Controller) → Keeps c c' → AreInside c → AreInside c'
keep-AreInside c c' k a = record {
  sqs = λ qid d e. keep-Inside c c' k (qid * 2) d (a.sqs qid d (sym (k.sq_sizes qid) ∙ e));
  cqs = λ qid d e. keep-Inside c c' k (qid * 2 + 1) d (a.cqs qid d (sym (k.cq_sizes qid) ∙ e));
  cq_ends = λ qid d e behind.
      a.cq_ends qid d (sym (k.cq_sizes qid) ∙ e) (keep_behind c c' k (qid * 2 + 1) behind);
}

-- a doorbell that is not pending stays so
pub keep_quiet :
    (c c' : Controller) → Keeps c c' → (i : ℕ) → c.old_dbs i ≡ c.dbs i → c'.old_dbs i ≡ c'.dbs i
keep_quiet c c' k i q =
    let at : c'.dbs i ≡ c.dbs i = ap (λ (f : ℕ → ℕ). f i) k.dbs in
    elim (k.seen i) [ inl same ↦ same ∙ q ∙ sym at | inr now ↦ now ∙ sym at ]

pub seen_update :
    (old : ℕ → ℕ) (i v j : ℕ) (now : ℕ)
    → (i == j ≡ true → v ≡ now)
    → (update old i v j ≡ old j) ⊎ (update old i v j ≡ now)
seen_update old i v j now h = elim (Bool-cases (i == j)) [
  | inl here ↦ rw here (inr (h here))
  | inr there ↦ rw there (inl refl)
]

pub le-lt : (n k : ℕ) → n ≤ k → k < n + 0 → ⊥
le-lt n k low high = omega (arith, low, high)

-- the size of a queue stays where its entry is changed only otherwise
pub sq_size_update :
    (sqes : ℕ → Option SubmissionQueue) (qid : ℕ) (q q' : SubmissionQueue)
    → sqes qid ≡ some q
    → q'.queue_size ≡ q.queue_size
    → (i : ℕ) → size_of_sq (update sqes qid (some q') i) ≡ size_of_sq (sqes i)
sq_size_update sqes qid q q' e size i = elim (Bool-cases (qid == i)) [
  | inl here ↦
      let at : sqes i ≡ some q = ap (λ j. sqes j) (sym (eq_of_test qid i here)) ∙ e in
      rw (here, at) (ap some size)
  | inr there ↦ rw there refl
]

pub cq_size_update :
    (cqes : ℕ → Option CreatedQueue) (qid : ℕ) (q q' : CreatedQueue)
    → cqes qid ≡ some q
    → q'.queue.queue_size ≡ q.queue.queue_size
    → (i : ℕ) → size_of_cq (update cqes qid (some q') i) ≡ size_of_cq (cqes i)
cq_size_update cqes qid q q' e size i = elim (Bool-cases (qid == i)) [
  | inl here ↦
      let at : cqes i ≡ some q = ap (λ j. cqes j) (sym (eq_of_test qid i here)) ∙ e in
      rw (here, at) (ap some size)
  | inr there ↦ rw there refl
]

pub with_stat_size :
    (o : Option SubmissionQueue) (s : Option SqStat) → size_of_sq (with_stat o s) ≡ size_of_sq o
with_stat_size none s = refl
with_stat_size (some q) none = refl
with_stat_size (some q) (some s) = refl

-- what one doorbell comes to: where its queue exists, it is not pending
abbrev pub Quiets : Controller → Controller → ℕ → Option ℕ → Type 0
Quiets c c' i size = Keeps c c' × ((d : ℕ) → size ≡ some d → c'.old_dbs i ≡ c'.dbs i)

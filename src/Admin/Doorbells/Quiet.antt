-- ===== src/Admin/Doorbells/Quiet.antt =====
-- After a pass over the doorbells, none is pending.
use wild_cat.Common.{
  eq_of_test, ℕ, ◌+◌, ◌*◌, ◌≤◌, ◌<◌, ◌≡◌, refl, ap, ◌∙◌, inl, inr, Bool, true, false, Bool-cases,
  Option, some, ◌==◌, arith,
}
use wild_cat.Admin.State.{Controller}
use wild_cat.Admin.Doorbells.{see_doorbell, sq_doorbells, admin_doorbells, nvmev_proc_dbs}
use wild_cat.Admin.Doorbells.Kept.{
  size_of_sq, size_of_cq, AreInside, Keeps, Keeps-refl, Keeps-trans, keep-AreInside, keep_quiet,
  seen_update,
}
use wild_cat.Admin.Doorbells.Submissions.{all_sqs}
use wild_cat.Admin.Doorbells.Takings.{all_cqs}

admin_quiet :
    (c : Controller)
    → c.dbs 0 ≡ c.old_dbs 0
    → (r : Bool × Controller) × (admin_doorbells c ≡ some r) × Keeps c r.1
unfolding admin_doorbells
admin_quiet c e =
    let still : (c.dbs 0 == c.old_dbs 0) ≡ true = ground (arith, e) in
    elim (Bool-cases (c.dbs 1 == c.old_dbs 1)) [
      | inl same ↦ ((false, c), simp (admin_doorbells, still, same) refl, Keeps-refl c)
      | inr rung ↦ (
        (true, see_doorbell c 1 (c.dbs 1)),
        simp (admin_doorbells, still, rung) refl,
        record {
          dbs = refl;
          seen = λ j.
              seen_update c.old_dbs 1 (c.dbs 1) j (c.dbs j)
                (λ h. ap (λ k. c.dbs k) (eq_of_test 1 j h));
          sq_sizes = λ j. refl;
          cq_sizes = λ j. refl;
          nr_sq = refl;
          nr_cq = refl;
        },
      )
    ]

-- no doorbell of an I/O queue that exists is pending in `c'`, for the queues of `c`
pub record IsQuiet (c c' : Controller) : Type 0 where
  pub sqs :
      (k d : ℕ)
      → 1 ≤ k
      → k ≤ c.nr_sq
      → size_of_sq (c.sqes k) ≡ some d
      → c'.old_dbs (k * 2) ≡ c.dbs (k * 2)
  pub cqs :
      (k d : ℕ)
      → 1 ≤ k
      → k ≤ c.nr_cq
      → size_of_cq (c.cqes k) ≡ some d
      → c'.old_dbs (k * 2 + 1) ≡ c.dbs (k * 2 + 1)

-- Where the handler of I/O commands handles every entry, no admin command waits, the doorbells of the
-- queues that exist lie inside them, and no completion queue whose last page is full is passed at its
-- end, nvmev_proc_dbs ends, and the doorbell of every I/O queue that exists, with an identifier from 1
-- to the number of such queues that was set, was seen as the host has written it. The doorbells that the host has written, the numbers of queues and
-- their sizes stay.
pub nvmev_proc_dbs-quiets :
    {S : Type 0} (proc : ℕ → ℕ → S → Option (ℕ × S)) (c : Controller) (s : S)
    → ((qid e : ℕ) (s : S) → (r : ℕ × S) × (proc qid e s ≡ some r))
    → c.dbs 0 ≡ c.old_dbs 0
    → AreInside c
    → (r : Bool × Controller × S) × (nvmev_proc_dbs proc c s ≡ some r) × Keeps c r.1 × IsQuiet c r.1
unfolding nvmev_proc_dbs
nvmev_proc_dbs-quiets proc c s all still a =
    let ((b₁, c₁), e₁, k₁) = admin_quiet c still in
    let a₁ = keep-AreInside c c₁ k₁ a in
    let r = sq_doorbells proc c₁.nr_sq 1 (b₁, c₁, s) in
    let (k₂, q₂) = all_sqs proc all c₁.nr_sq 1 b₁ c₁ s a₁ in
    let ((b₃, c₃), e₃, k₃, q₃) = all_cqs r.1.nr_cq 1 r.0 r.1 (keep-AreInside c₁ r.1 k₂ a₁) in
    let to_2 = Keeps-trans c c₁ r.1 k₁ k₂ in
    let keeps = Keeps-trans c r.1 c₃ to_2 k₃ in
    (
      (b₃, c₃, r.2),
      rw (nvmev_proc_dbs, e₁, e₃) refl,
      keeps,
      record {
        sqs = λ k d low high h.
            let inside : k < 1 + c₁.nr_sq = omega (arith, high, k₁.nr_sq) in
            keep_quiet r.1 c₃ k₃ (k * 2) (q₂ k d low inside (k₁.sq_sizes k ∙ h))
            ∙ ap (λ (f : ℕ → ℕ). f (k * 2)) keeps.dbs;
        cqs = λ k d low high h.
            let inside : k < 1 + r.1.nr_cq = omega (arith, high, to_2.nr_cq) in
            q₃ k d low inside (to_2.cq_sizes k ∙ h) ∙ ap (λ (f : ℕ → ℕ). f (k * 2 + 1)) keeps.dbs;
      },
    )

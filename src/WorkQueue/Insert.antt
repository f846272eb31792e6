-- ===== src/WorkQueue/Insert.antt =====
-- `__insert_req_sorted` inserts into the list of requests.
use mathlib.Core.Path.{subst, fun_ext}
use wild_cat.Common.{
  eq_of_test, ℕ, max, zero, suc, ◌≤◌, ◌<◌, ◌≡◌, refl, ◌∙◌, sym, ap, Bool, true, false, some, List,
  [], ◌∷◌, ◌==◌, if◌then◌else◌, length, arith, inl, inr, Bool-cases, ◌≢◌,
}
use wild_cat.WorkQueue.{
  no_entry, nr_max_parallel_io, IoWork, IoWorker, set_next, set_prev, stops_at, find_place,
  link_behind, insert_req_sorted,
}
use wild_cat.WorkQueue.Chain.{
  first_or, last_or, Links, ended, linked, NotIn, nowhere, no_entries, one_more, IsChain,
  insert_back, place, place-apart, behind, behind-apart, at_self, Relinked, Links-inserted,
  behind-inside, last_or-inside, last_or-inserted, no_entry-NotIn, Distinct-inserted, Ordered,
  one_key, Ordered-inserted,
}

-- the search ends within as many rounds as there are requests
find_place-place :
    (w : IoWorker) (target n fuel : ℕ) (xs : List ℕ)
    → length xs ≤ fuel
    → Links w.work_queue n xs
    → find_place fuel w target (first_or xs no_entry) ≡ some (place (stops_at w target) xs)
unfolding find_place
find_place-place w target n zero [] le l = refl
find_place-place w target n (suc fuel) [] le l = refl
find_place-place w target n zero (x ∷ xs) le l = absurd (omega (arith, le))
find_place-place w target n (suc fuel) (x ∷ xs) le (linked next prev lt rest) =
    let entry : (x == no_entry) ≡ false = ground (arith, lt) in
    elim (Bool-cases (stops_at w target x)) [
      | inl h ↦ rw (find_place, entry, h) refl
      | inr h ↦
          rw (find_place, entry, h, prev)
            (find_place-place w target x fuel xs (omega (arith, le)) rest)
    ]

-- where the search passes all requests, the place is in front of the first
behind-last :
    (q : ℕ → IoWork) (stops : ℕ → Bool) (n : ℕ) (xs : List ℕ)
    → Links q n xs
    → (place stops xs == no_entry) ≡ true
    → behind stops n xs ≡ last_or xs n
behind-last q stops n [] l h = refl
behind-last q stops n (x ∷ xs) (linked next prev lt rest) h = elim (Bool-cases (stops x)) [
  | inl s ↦ let h' = rw s at h in absurd (ground (arith, lt, h'))
  | inr s ↦ let h' = rw s at h in rw s (behind-last q stops x xs rest h')
]

true_apart : true ≢ false
true_apart e = ground (arith, e)

-- otherwise it is behind the request at which the search stops
behind-next :
    (q : ℕ → IoWork) (stops : ℕ → Bool) (n : ℕ) (xs : List ℕ)
    → Links q n xs
    → (place stops xs == no_entry) ≡ false
    → (q (place stops xs)).next ≡ behind stops n xs
behind-next q stops n [] l h = absurd (true_apart h)
behind-next q stops n (x ∷ xs) (linked next prev lt rest) h = elim (Bool-cases (stops x)) [
  | inl s ↦ rw s next
  | inr s ↦ let h' = rw s at h in rw s (behind-next q stops x xs rest h')
]

-- an entry without its links
unfoldable pub unlinked : IoWork → IoWork
unlinked d = record d { prev = no_entry; next = no_entry }

unlinked-set_next : (q : ℕ → IoWork) (i n x : ℕ) → unlinked (set_next q i n x) ≡ unlinked (q x)
unfolding unlinked
unlinked-set_next q i n x = elim (Bool-cases (i == x)) [
  | inl same ↦ rw same (ap (λ j. unlinked (q j)) (eq_of_test i x same))
  | inr other ↦ rw other refl
]

unlinked-set_prev : (q : ℕ → IoWork) (i n x : ℕ) → unlinked (set_prev q i n x) ≡ unlinked (q x)
unfolding unlinked
unlinked-set_prev q i n x = elim (Bool-cases (i == x)) [
  | inl same ↦ rw same (ap (λ j. unlinked (q j)) (eq_of_test i x same))
  | inr other ↦ rw other refl
]

-- the fields of an entry after a link is written
next-set_next :
    (q : ℕ → IoWork) (i n x : ℕ) → (set_next q i n x).next ≡ (if x == i then n else (q x).next)
next-set_next q i n x = ground arith

prev-set_next : (q : ℕ → IoWork) (i n x : ℕ) → (set_next q i n x).prev ≡ (q x).prev
prev-set_next q i n x = ground arith

target-set_next :
    (q : ℕ → IoWork) (i n x : ℕ) → (set_next q i n x).nsecs_target ≡ (q x).nsecs_target
target-set_next q i n x = ground arith

prev-set_prev :
    (q : ℕ → IoWork) (i n x : ℕ) → (set_prev q i n x).prev ≡ (if x == i then n else (q x).prev)
prev-set_prev q i n x = ground arith

next-set_prev : (q : ℕ → IoWork) (i n x : ℕ) → (set_prev q i n x).next ≡ (q x).next
next-set_prev q i n x = ground arith

target-set_prev :
    (q : ℕ → IoWork) (i n x : ℕ) → (set_prev q i n x).nsecs_target ≡ (q x).nsecs_target
target-set_prev q i n x = ground arith

-- two tests that do not hold at once
swapped :
    (x a e b c d : ℕ)
    → (a == e) ≡ false
    → (if x == a then b else if x == e then c else d)
      ≡ (if x == e then c else if x == a then b else d)
swapped x a e b c d h = ground (arith, h)

-- the three cases of the insertion
module _ (w : IoWorker) (e curr succ : ℕ) (next : (w.work_queue e).next ≡ no_entry)
    (prev : (w.work_queue e).prev ≡ no_entry) (off_succ : (succ == e) ≡ false) where
  head-Relinked :
      (curr == no_entry) ≡ true
      → w.io_seq ≡ succ
      → Relinked w.work_queue (link_behind w e curr).work_queue e curr succ
  unfolding link_behind
  head-Relinked at_start start = rw at_start (record {
    next_of = λ x lt. rw (next-set_next, next-set_prev) (ground (arith, start, at_start, lt));
    prev_of = λ x lt.
        rw (prev-set_next, prev-set_prev)
          (elim (Bool-cases (x == e)) [
            | inl same ↦
                let here : x ≡ e = ground (arith, same) in
                rw here (ground (arith, start, at_start, prev, off_succ))
            | inr other ↦ rw (other, start) refl
          ]);
    target_of = λ x. rw (target-set_next, target-set_prev) refl;
  })

  module _ (inside : (curr == no_entry) ≡ false) (off_curr : (curr == e) ≡ false)
      (follows : (w.work_queue curr).next ≡ succ) where
    tail-Relinked :
        ((w.work_queue curr).next == no_entry) ≡ true
        → Relinked w.work_queue (link_behind w e curr).work_queue e curr succ
    unfolding link_behind
    tail-Relinked at_end =
        rw (inside, at_end)
          (record {
            next_of = λ x lt.
                rw (next-set_next, next-set_prev)
                  (elim (Bool-cases (x == e)) [
                    | inl same ↦
                        let here : x ≡ e = ground (arith, same) in
                        rw here (ground (arith, next, at_end, follows, off_curr))
                    | inr other ↦ rw other refl
                  ]);
            prev_of =
                λ x lt. rw (prev-set_next, prev-set_prev) (ground (arith, at_end, follows, lt));
            target_of = λ x. rw (target-set_next, target-set_prev) refl;
          })

    between-Relinked :
        ((w.work_queue curr).next == no_entry) ≡ false
        → Relinked w.work_queue (link_behind w e curr).work_queue e curr succ
    unfolding link_behind
    between-Relinked before_end =
        let q = w.work_queue in
        let q₁ = set_prev q e curr in
        let own : (q₁ curr).next ≡ succ = next-set_prev q e curr curr ∙ follows in
        let q₂ = set_next q₁ e (q₁ curr).next in
        let own' : (q₂ e).next ≡ succ = next-set_next q₁ e (q₁ curr).next e ∙ at_self _ e ∙ own in
        let q₃ = set_prev q₂ (q₂ e).next e in
        let mid : (x : ℕ) → (q₃ x).next ≡ (if x == e then succ else (q x).next) = λ x.
          next-set_prev q₂ (q₂ e).next e x
          ∙ next-set_next q₁ e (q₁ curr).next x
          ∙ ap (λ v. if x == e then v else (q₁ x).next) own
          ∙ ap (λ v. if x == e then succ else v) (next-set_prev q e curr x) in
        let back : (x : ℕ)
            → (q₃ x).prev ≡ (if x == succ then e else if x == e then curr else (q x).prev) =
          λ x.
            prev-set_prev q₂ (q₂ e).next e x
            ∙ ap (λ v. if x == v then e else (q₂ x).prev) own'
            ∙ ap (λ v. if x == succ then e else v)
                (prev-set_next q₁ e (q₁ curr).next x ∙ prev-set_prev q e curr x) in
        rw (inside, before_end)
          (record {
            next_of = λ x lt.
                next-set_next q₃ curr e x
                ∙ ap (λ v. if x == curr then e else v) (mid x)
                ∙ swapped x curr e _ _ _ off_curr;
            prev_of = λ x lt. prev-set_next q₃ curr e x ∙ back x ∙ swapped x succ e _ _ _ off_succ;
            target_of = λ x.
                target-set_next q₃ curr e x
                ∙ target-set_prev q₂ (q₂ e).next e x
                ∙ target-set_next q₁ e (q₁ curr).next x
                ∙ target-set_prev q e curr x;
          })

entry_apart : (e : ℕ) → e < no_entry → (no_entry == e) ≡ false
entry_apart e small = ground (arith, small)

entry_inside : (e : ℕ) → e < no_entry → (e == no_entry) ≡ false
entry_inside e small = ground (arith, small)

-- the insertion behind the request at which the search stops has the links of the new list
link_behind-Relinked :
    (w : IoWorker) (e : ℕ) (stops : ℕ → Bool) (xs : List ℕ)
    → e < no_entry
    → (w.work_queue e).next ≡ no_entry
    → (w.work_queue e).prev ≡ no_entry
    → NotIn e xs
    → Links w.work_queue no_entry xs
    → w.io_seq ≡ last_or xs no_entry
    → Relinked w.work_queue
        (link_behind w e (place stops xs)).work_queue
        e
        (place stops xs)
        (behind stops no_entry xs)
link_behind-Relinked w e stops xs small next prev apart l start =
    let off_end = entry_apart e small in
    let off_succ = behind-apart stops e no_entry xs off_end apart in
    let off_curr = place-apart stops e xs small apart in
    elim (Bool-cases (place stops xs == no_entry)) [
      | inl at_start ↦
          head-Relinked w e _ _ next prev off_succ at_start
            (start ∙ sym (behind-last w.work_queue stops no_entry xs l at_start))
      | inr inside ↦
          let follows = behind-next w.work_queue stops no_entry xs l inside in
          elim (Bool-cases ((w.work_queue (place stops xs)).next == no_entry)) [
            | inl at_end ↦ tail-Relinked w e _ _ next prev off_succ inside off_curr follows at_end
            | inr before_end ↦
                between-Relinked w e _ _ next prev off_succ inside off_curr follows before_end
          ]
    ]

-- When a request is due for the worker: a time that it has passed counts as the time it has reached.
abbrev pub due : IoWorker → ℕ → ℕ
due w x = max (w.work_queue x).nsecs_target w.latest_nsecs

stops_at-due :
    (w : IoWorker) (e target x : ℕ)
    → (w.work_queue e).nsecs_target ≡ target
    → stops_at w target x ≡ true
    → due w x ≤ due w e
stops_at-due w e target x same h = ground (arith, same, h)

passes_at-due :
    (w : IoWorker) (e target x : ℕ)
    → (w.work_queue e).nsecs_target ≡ target
    → stops_at w target x ≡ false
    → due w e ≤ due w x
passes_at-due w e target x same h = ground (arith, same, h)

-- what an insertion leaves
pub record Inserted (w : IoWorker) (e target : ℕ) (r : List ℕ) (w' : IoWorker) : Type 0 where
  pub chain : IsChain w' (insert_back (stops_at w target) e r)
  pub sorted : Ordered (due w) r → Ordered (due w') (insert_back (stops_at w target) e r)
  pub same_target : (x : ℕ) → (w'.work_queue x).nsecs_target ≡ (w.work_queue x).nsecs_target
  pub same_rest : (x : ℕ) → unlinked (w'.work_queue x) ≡ unlinked (w.work_queue x)
  pub same_latest : w'.latest_nsecs ≡ w.latest_nsecs

link_behind-rest :
    (w : IoWorker) (e curr x : ℕ)
    → unlinked ((link_behind w e curr).work_queue x) ≡ unlinked (w.work_queue x)
unfolding link_behind
link_behind-rest w e curr x = elim (Bool-cases (curr == no_entry)) [
  | inl a ↦ rw (link_behind, a, unlinked-set_next, unlinked-set_prev) refl
  | inr a ↦ elim (Bool-cases ((w.work_queue curr).next == no_entry)) [
    | inl b ↦ rw (link_behind, a, b, unlinked-set_next, unlinked-set_prev) refl
    | inr b ↦
        rw
          (
            link_behind, a, b, unlinked-set_next, unlinked-set_prev, unlinked-set_next,
            unlinked-set_prev,
          )
          refl
  ]
]

link_behind-latest :
    (w : IoWorker) (e curr : ℕ) → (link_behind w e curr).latest_nsecs ≡ w.latest_nsecs
unfolding link_behind
link_behind-latest w e curr = elim (Bool-cases (curr == no_entry)) [
  | inl a ↦ rw (link_behind, a) refl
  | inr a ↦ elim (Bool-cases ((w.work_queue curr).next == no_entry)) [
    | inl b ↦ rw (link_behind, a, b) refl
    | inr b ↦ rw (link_behind, a, b) refl
  ]
]

link_behind-start :
    (w : IoWorker) (e curr : ℕ)
    → (link_behind w e curr).io_seq ≡ (if curr == no_entry then e else w.io_seq)
unfolding link_behind
link_behind-start w e curr = elim (Bool-cases (curr == no_entry)) [
  | inl a ↦ rw (link_behind, a) refl
  | inr a ↦ elim (Bool-cases ((w.work_queue curr).next == no_entry)) [
    | inl b ↦ rw (link_behind, a, b) refl
    | inr b ↦ rw (link_behind, a, b) refl
  ]
]

link_behind-last :
    (w : IoWorker) (e curr : ℕ)
    → (link_behind w e curr).io_seq_end ≡ (
        if curr == no_entry
        then w.io_seq_end
        else (if (w.work_queue curr).next == no_entry then e else w.io_seq_end))
unfolding link_behind
link_behind-last w e curr = elim (Bool-cases (curr == no_entry)) [
  | inl a ↦ rw (link_behind, a) refl
  | inr a ↦ elim (Bool-cases ((w.work_queue curr).next == no_entry)) [
    | inl b ↦ rw (link_behind, a, b) refl
    | inr b ↦ rw (link_behind, a, b) refl
  ]
]

-- the end of the list, where the search stops at the last request or passes it
end_stopped :
    (w : IoWorker) (e x : ℕ)
    → (x == no_entry) ≡ false
    → ((w.work_queue x).next == no_entry) ≡ true
    → (link_behind w e x).io_seq_end ≡ e
end_stopped w e x off last = rw (link_behind-last w e x, off, last) refl

end_passed :
    (w : IoWorker) (e curr : ℕ)
    → ((curr == no_entry) ≡ false → ((w.work_queue curr).next == no_entry) ≡ false)
    → (link_behind w e curr).io_seq_end ≡ w.io_seq_end
end_passed w e curr inside = elim (Bool-cases (curr == no_entry)) [
  | inl a ↦ rw (link_behind-last w e curr, a) refl
  | inr a ↦ rw (link_behind-last w e curr, a, inside a) refl
]

link_behind-end :
    (w : IoWorker) (e x : ℕ) (stops : ℕ → Bool) (xs : List ℕ)
    → Links w.work_queue no_entry (x ∷ xs)
    → w.io_seq_end ≡ x
    → (link_behind w e (place stops (x ∷ xs))).io_seq_end
      ≡ first_or (insert_back stops e (x ∷ xs)) no_entry
link_behind-end w e x stops xs (linked next prev lt rest) end = elim (Bool-cases (stops x)) [
  | inl s ↦
      ap (λ b. (link_behind w e (if b then x else place stops xs)).io_seq_end) s
      ∙ end_stopped w e x (entry_inside x lt) (rw next refl)
      ∙ sym (ap (λ b. first_or (if b then e ∷ x ∷ xs else x ∷ insert_back stops e xs) no_entry) s)
  | inr s ↦
      ap (λ b. (link_behind w e (if b then x else place stops xs)).io_seq_end) s
      ∙ end_passed w e (place stops xs) (λ a.
        ap (λ n. n == no_entry) (behind-next w.work_queue stops x xs rest a)
        ∙ behind-inside stops w.work_queue x xs lt rest)
      ∙ end
      ∙ sym (ap (λ b. first_or (if b then e ∷ x ∷ xs else x ∷ insert_back stops e xs) no_entry) s)
]

module _ (w : IoWorker) (e target : ℕ) (small : e < no_entry)
    (next : (w.work_queue e).next ≡ no_entry) (prev : (w.work_queue e).prev ≡ no_entry)
    (own : (w.work_queue e).nsecs_target ≡ target) where
  started :
      (x : ℕ) (xs : List ℕ)
      → Links w.work_queue no_entry (x ∷ xs)
      → (last_or (x ∷ xs) no_entry == no_entry) ≡ false
  started x xs (linked a b lt rest) = last_or-inside w.work_queue x xs lt rest

  -- `__insert_req_sorted` of an entry that is not linked, with room in the table, puts it into the
  -- list of requests behind the last one that is due at `target` or before, or at the time that the
  -- worker has reached, keeps the links of the list in both directions, and keeps the list in the
  -- order in which the requests are due.
  pub insert_req_sorted-Inserted :
      (r : List ℕ)
      → IsChain w r
      → NotIn e r
      → length r ≤ nr_max_parallel_io
      → (w' : IoWorker) × (insert_req_sorted w e target ≡ some w') × Inserted w e target r w'
  unfolding insert_req_sorted
  insert_req_sorted-Inserted [] c apart room =
      let start = c.start in
      let none_there : (w.io_seq == no_entry) ≡ true = rw start refl in
      (
        record w { io_seq = e; io_seq_end = e },
        rw none_there refl,
        record {
          chain = record {
            links = linked next prev small ended;
            distinct = one_more nowhere no_entries;
            start = refl;
            end = λ _. refl;
          };
          sorted = λ _. one_key;
          same_target = λ x. refl;
          same_rest = λ x. refl;
          same_latest = refl;
        },
      )
  insert_req_sorted-Inserted (x ∷ xs) c apart room =
      let q = w.work_queue in
      let r = x ∷ xs in
      let stops = stops_at w target in
      let curr = place stops r in
      let l = c.links in
      let start = c.start in
      let some_there : (w.io_seq == no_entry) ≡ false = rw start (started x xs l) in
      let end = c.end some_there in
      let found = find_place-place w target no_entry nr_max_parallel_io r room l in
      let relinked = link_behind-Relinked w e stops r small next prev apart l start in
      let same_due : (y : ℕ) → due w y ≡ due (link_behind w e curr) y = λ y. sym (
        ap (λ v. max v (link_behind w e curr).latest_nsecs) (relinked.target_of y)
        ∙ ap (λ v. max (q y).nsecs_target v) (link_behind-latest w e curr)) in
      let off_end = entry_apart e small in
      (
        link_behind w e curr,
        rw (some_there, end, found) refl,
        record {
          chain = record {
            links =
                Links-inserted q (link_behind w e curr).work_queue e small stops no_entry r off_end
                  relinked apart (no_entry-NotIn q no_entry r l) c.distinct l;
            distinct = Distinct-inserted stops e r apart c.distinct;
            start =
                link_behind-start w e curr
                ∙ ap (λ v. if curr == no_entry then e else v) start
                ∙ sym (last_or-inserted stops q e no_entry r l);
            end = λ _. link_behind-end w e x stops xs l end;
          };
          sorted = λ o.
              subst (λ key. Ordered key (insert_back stops e r)) (fun_ext (λ y. same_due y))
                (Ordered-inserted (due w) stops e (λ y. stops_at-due w e target y own)
                  (λ y. passes_at-due w e target y own) r o);
          same_target = relinked.target_of;
          same_rest = link_behind-rest w e curr;
          same_latest = link_behind-latest w e curr;
        },
      )

-- ===== src/Review/Tasks/Shared.antt =====
-- application/reviews.py: the resumes that are under way for a run.
use agenda_agent.Domain.Digest.{Uuid}
use agenda_agent.Review.Decision.{ReviewDecision}
use agenda_agent.Review.Tasks.{
  IsReachable, ResumeTask, ResumeTasks, coalesce_resume, finish, finish_task, initial,
  is_unfinished, later, request, set_item, start_task,
}
use agenda_agent.Prelude.{
  Bool, Bool-cases, In, In-select, List, Option-cases, [], ap, arith, exists, false, inl, inr,
  length, not, refl, select, some, subst, sym, true, update_where, ℕ, ==→≡, ==_refl, ◌&&◌, ◌==◌,
  ◌∙◌, ◌∷◌, ◌≡◌, ◌≤◌, ◌⊎◌,
}

-- A task of the run that is not done.
abbrev is_active : Uuid → ResumeTask → Bool
is_active run task = task.processing_run_id == run && not task.is_done

abbrev pub active : Uuid → ResumeTasks → List ResumeTask
active run s = select (is_active run) s.tasks

-- There is none, or there is one and the dictionary has it.
abbrev IsSingle : Uuid → ResumeTasks → Type 0
IsSingle run s =
    (active run s ≡ [])
    ⊎ ((task : ResumeTask) × (active run s ≡ task ∷ []) × (s.resume_tasks run ≡ some task.identity))

some-injective : {a b : ℕ} → some a ≡ some b → a ≡ b
some-injective h = cc

exists-In :
    (p : ResumeTask → Bool) (xs : List ResumeTask) (x : ResumeTask)
    → In x xs
    → p x ≡ true
    → exists p xs ≡ true
exists-In p [] x m h = absurd m
exists-In p (y ∷ ys) x m h = elim m [
  | inl same ↦ let now : p y ≡ true = rw (sym same) h in rw now refl
  | inr m' ↦ elim (Bool-cases (p y)) [
    | inl now ↦ rw now refl
    | inr skip ↦ rw skip (exists-In p ys x m' h)
  ]
]

In-select-holds :
    (p : ResumeTask → Bool) (xs : List ResumeTask) (x : ResumeTask)
    → In x (select p xs)
    → p x ≡ true
In-select-holds p [] x m = absurd m
In-select-holds p (y ∷ ys) x m = elim (Bool-cases (p y)) [
  | inr skip ↦ In-select-holds p ys x (rw skip at m)
  | inl hit ↦ elim (rw hit at m) [ inl same ↦ rw same hit | inr m' ↦ In-select-holds p ys x m' ]
]

-- A running task of the dictionary is found.
active-exists :
    (run : Uuid) (s : ResumeTasks) (task : ResumeTask)
    → active run s ≡ task ∷ []
    → exists (is_unfinished task.identity) s.tasks ≡ true
unfolding is_unfinished
active-exists run s task h =
    let m : In task (active run s) = subst (In task) (sym h) (inl refl) in
    let holds = In-select-holds (is_active run) s.tasks task m in
    exists-In (is_unfinished task.identity) s.tasks task (In-select (is_active run) s.tasks task m)
      (ground (arith, holds))

start_task-IsSingle_own :
    (run email : Uuid) (decision : ReviewDecision) (s : ResumeTasks)
    → active run s ≡ []
    → IsSingle run (start_task run email decision s).0
unfolding start_task set_item
start_task-IsSingle_own run email decision s idle =
    let own : (run == run) ≡ true = ==_refl run in
    let task : ResumeTask = record {
      identity = length s.tasks;
      processing_run_id = run;
      source_email_id = email;
      decision = decision;
      is_done = false;
    } in
    inr (task, rw (own, idle) refl, rw own refl)

start_task-IsSingle_other :
    (run email : Uuid) (decision : ReviewDecision) (s : ResumeTasks) (other : Uuid)
    → (other == run) ≡ false
    → IsSingle other s
    → IsSingle other (start_task run email decision s).0
unfolding start_task set_item
start_task-IsSingle_other run email decision s other apart single =
    let turned : (run == other) ≡ false = ground (arith, apart) in
    elim single [
      | inl idle ↦ inl (rw turned idle)
      | inr (task, one, has) ↦ inr (task, rw turned one, rw apart has)
    ]

start_task-IsSingle :
    (run email : Uuid) (decision : ReviewDecision) (s : ResumeTasks) (other : Uuid)
    → active run s ≡ []
    → IsSingle other s
    → IsSingle other (start_task run email decision s).0
start_task-IsSingle run email decision s other idle single = elim (Bool-cases (other == run)) [
  | inl same ↦
      subst (λ i. IsSingle i (start_task run email decision s).0) (sym (==→≡ other run same))
        (start_task-IsSingle_own run email decision s idle)
  | inr apart ↦ start_task-IsSingle_other run email decision s other apart single
]

-- A request shares the task under way, or there is none and it starts one.
coalesce_resume-cases :
    (run email : Uuid) (decision : ReviewDecision) (s : ResumeTasks)
    → IsSingle run s
    → ((existing : ℕ) × (coalesce_resume run email decision s ≡ (s, existing)))
      ⊎ ((active run s ≡ [])
          × (coalesce_resume run email decision s ≡ start_task run email decision s))
unfolding coalesce_resume
coalesce_resume-cases run email decision s single = elim (Option-cases (s.resume_tasks run)) [
  | inl absent ↦ inr (
    elim single [ inl idle ↦ idle | inr (task, one, has) ↦ cc (absent, has) ],
    rw (absent, coalesce_resume) refl,
  )
  | inr (existing, known) ↦ elim (Bool-cases (exists (is_unfinished existing) s.tasks)) [
    | inl running ↦ inl (existing, rw (known, running, coalesce_resume) refl)
    | inr ended ↦ inr (
      elim single [
        | inl idle ↦ idle
        | inr (task, one, has) ↦
            let same : task.identity ≡ existing = some-injective (sym has ∙ known) in
            let runs = active-exists run s task one in cc (ended, rw same at runs)
      ],
      rw (known, ended, coalesce_resume) refl,
    )
  ]
]

coalesce_resume-IsSingle :
    (run email : Uuid) (decision : ReviewDecision) (s : ResumeTasks)
    → ((other : Uuid) → IsSingle other s)
    → (other : Uuid) → IsSingle other (coalesce_resume run email decision s).0
coalesce_resume-IsSingle run email decision s single other =
    elim (coalesce_resume-cases run email decision s (single run)) [
      | inl (existing, shared) ↦ subst (λ out. IsSingle other out.0) (sym shared) (single other)
      | inr (idle, starts) ↦
          subst (λ out. IsSingle other out.0) (sym starts)
            (start_task-IsSingle run email decision s other idle (single other))
    ]

select-update_where :
    (p q : ResumeTask → Bool) (f : ResumeTask → ResumeTask) (xs : List ResumeTask)
    → ((x : ResumeTask) → p (f x) ≡ false)
    → select p (update_where q f xs) ≡ select (λ x. not (q x)) (select p xs)
select-update_where p q f [] drops = refl
select-update_where p q f (x ∷ xs) drops =
    let rest = select-update_where p q f xs drops in
    elim (Bool-cases (q x)) [
      | inl hit ↦ elim (Bool-cases (p x)) [
        | inl kept ↦ rw (hit, drops x, kept) (rw hit rest)
        | inr skip ↦ rw (hit, drops x, skip) rest
      ]
      | inr miss ↦ elim (Bool-cases (p x)) [
        | inl kept ↦ rw (miss, kept) (rw miss (ap (λ ys. x ∷ ys) rest))
        | inr skip ↦ rw (miss, skip) rest
      ]
    ]

done-idle :
    (run : Uuid) (task : ResumeTask) → is_active run (record task { is_done = true }) ≡ false
done-idle run task = elim (Bool-cases (task.processing_run_id == run)) [
  | inl own ↦ rw own refl
  | inr other ↦ rw other refl
]

finish_task-IsSingle :
    (identity : ℕ) (s : ResumeTasks) (run : Uuid)
    → IsSingle run s
    → IsSingle run (finish_task identity s)
unfolding finish_task
finish_task-IsSingle identity s run single =
    let still =
      select-update_where (is_active run) (λ task. task.identity == identity)
        (λ task. record task { is_done = true }) s.tasks (done-idle run) in
    elim single [
      | inl idle ↦ inl (still ∙ ap (select (λ task. not (task.identity == identity))) idle)
      | inr (task, one, has) ↦
          let left = still ∙ ap (select (λ task. not (task.identity == identity))) one in
          elim (Bool-cases (task.identity == identity)) [
            | inl hit ↦ inl (left ∙ rw hit refl)
            | inr miss ↦ inr (task, left ∙ rw miss refl, has)
          ]
    ]

-- The invariant of the dictionary.
IsReachable-IsSingle : {s : ResumeTasks} → IsReachable s → (run : Uuid) → IsSingle run s
IsReachable-IsSingle initial run = inl refl
IsReachable-IsSingle (later before (request own email decision)) run =
    coalesce_resume-IsSingle own email decision _ (IsReachable-IsSingle before) run
IsReachable-IsSingle (later before (finish identity)) run =
    finish_task-IsSingle identity _ run (IsReachable-IsSingle before run)

-- However requests and the ends of tasks follow each other, at most one resume of a run is under way.
pub length-active : {s : ResumeTasks} → IsReachable s → (run : Uuid) → length (active run s) ≤ 1
length-active reached run = elim (IsReachable-IsSingle reached run) [
  | inl idle ↦ rw idle (omega arith)
  | inr (task, one, has) ↦ rw one (omega arith)
]

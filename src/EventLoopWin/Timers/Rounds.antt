-- ===== src/EventLoopWin/Timers/Rounds.antt =====
-- A round of the timers: what ProcessTimerTasksUpTo runs, what it leaves, and when.
use io_base.Base.{
  ℕ, suc, zero, ◌<◌, ◌≡◌, refl, sym, subst, if◌then◌else◌, false, List, [], ◌∷◌, ◌++◌, arith, All,
  All-append, Bool-cases, inl, inr, length, map, Option, none, some, append_assoc, append-nil,
}
use io_base.Base.Int.{ℤ, ◌≤ℤ◌, ◌<ℤ◌, ltb_ℤ}
use io_base.Duration.{Durations}
use io_base.EventLoopWin.Timers.Defs.{
  DelayedTaskInfo, Timers, Start, cancel, start_timer, schedule_next_timer, run_due_loop,
  process_timer_tasks,
}
use io_base.EventLoopWin.Timers.Queue.{AllFrom, IsSorted, push_all, push_all-behind}
use io_base.EventLoopWin.Timers.Due.{
  AllAfter, due_tasks, later_tasks, Post, info_of, post_all, post_all-running, AllAfter-trans,
  AllAfter-push_all, later_tasks-AllAfter, push_all-append,
}

unfoldable pub with_tasks : List DelayedTaskInfo → Timers → Timers
with_tasks tasks t = record t { timer_tasks_ = tasks }

-- The tasks of a list of posts, in their order, for the tasks of a list that run.
unfoldable pub posted : (ℕ → List DelayedTaskInfo) → List DelayedTaskInfo → List DelayedTaskInfo
posted infos [] = []
posted infos (top ∷ rest) = infos top.task ++ posted infos rest

abbrev pub names : List DelayedTaskInfo → List ℕ
names = map (λ info. info.task)

AllAfter-AllFrom :
    (a b : ℤ) (tasks : List DelayedTaskInfo) → a ≤ℤ b → AllAfter b tasks → AllFrom a tasks
AllAfter-AllFrom a b [] h all = tt
AllAfter-AllFrom a b (top ∷ rest) h all = (omega (arith, all.0), AllAfter-AllFrom a b rest h all.1)

due_tasks-All :
    (now : ℤ) (tasks : List DelayedTaskInfo)
    → All (λ info. info.due_time_micros ≤ℤ now) (due_tasks now tasks)
unfolding due_tasks
due_tasks-All now [] = tt
due_tasks-All now (top ∷ rest) = elim (Bool-cases (ltb_ℤ now top.due_time_micros)) [
  | inl e ↦ rw (e, due_tasks) tt
  | inr e ↦ rw (e, due_tasks) (ground (arith, e), due_tasks-All now rest)
]

module _ (c : Durations) (posts : ℕ → List (Post c)) where
  abbrev infos : ℕ → List DelayedTaskInfo
  infos task = map (info_of c) (posts task)

  abbrev run_task : ℕ → Timers → Option Timers
  run_task task = post_all c (posts task)

  stops :
      (now : ℤ) (rounds : ℕ) (tasks : List DelayedTaskInfo) (t : Timers)
      → AllAfter now tasks
      → run_due_loop c run_task (suc rounds) now (with_tasks tasks t)
        ≡ some (with_tasks tasks t, [])
  unfolding run_due_loop with_tasks
  stops now rounds [] t later = refl
  stops now rounds (top ∷ rest) t later = ground (arith, later.0)

  goes_on :
      (now : ℤ) (rounds : ℕ) (top : DelayedTaskInfo) (rest : List DelayedTaskInfo) (t t' : Timers)
      (ran : List ℕ)
      → top.due_time_micros ≤ℤ now
      → AllAfter now (infos top.task)
      → run_due_loop c run_task rounds now (with_tasks (push_all (infos top.task) rest) t)
        ≡ some (t', ran)
      → run_due_loop c run_task (suc rounds) now (with_tasks (top ∷ rest) t)
        ≡ some (t', top.task ∷ ran)
  unfolding run_due_loop with_tasks
  goes_on now rounds top rest t t' ran due later h =
      let is_due : ltb_ℤ now top.due_time_micros ≡ false = ground (arith, due) in
      let same =
        post_all-running c (posts top.task) (with_tasks (top ∷ rest) t) top rest refl
          (AllAfter-trans top.due_time_micros now (infos top.task) due later) in
      rw (run_due_loop, is_due, same, h) refl

  -- The loop, from a queue into which the tasks that ran have posted `qs`.
  loop :
      (now : ℤ)
      → ((task : ℕ) → AllAfter now (infos task))
      → (tasks qs : List DelayedTaskInfo) (t : Timers) (rounds : ℕ)
      → length (due_tasks now tasks) < rounds
      → AllAfter now qs
      → AllAfter now (later_tasks now tasks)
      → run_due_loop c run_task rounds now (with_tasks (push_all qs tasks) t)
        ≡ some (
          with_tasks
              (push_all (qs ++ posted infos (due_tasks now tasks)) (later_tasks now tasks))
              t,
          names (due_tasks now tasks),
        )
  unfolding due_tasks later_tasks posted
  loop now posts_later tasks qs t zero enough later rest_later = absurd (omega (arith, enough))
  loop now posts_later [] qs t (suc rounds) enough later rest_later =
      rw (append-nil qs)
        (stops now rounds (push_all qs []) t (AllAfter-push_all now qs [] later tt))
  loop now posts_later (top ∷ rest) qs t (suc rounds) enough later rest_later =
      elim (Bool-cases (ltb_ℤ now top.due_time_micros)) [
        | inl e ↦
            let here =
              subst (λ b. AllAfter now (if b then top ∷ rest else later_tasks now rest)) e
                rest_later in
            rw (e, append-nil qs)
              (stops now rounds (push_all qs (top ∷ rest)) t
                (AllAfter-push_all now qs (top ∷ rest) later here))
        | inr e ↦
            let there =
              subst (λ b. AllAfter now (if b then top ∷ rest else later_tasks now rest)) e
                rest_later in
            let due : top.due_time_micros ≤ℤ now = ground (arith, e) in
            let behind : push_all qs (top ∷ rest) ≡ top ∷ push_all qs rest =
              push_all-behind qs top rest (AllAfter-AllFrom top.due_time_micros now qs due later) in
            let all =
              All-append (λ info. now <ℤ info.due_time_micros) qs (infos top.task) later
                (posts_later top.task) in
            let fewer : length (due_tasks now rest) < rounds = ground (arith, e, enough) in
            let ih = loop now posts_later rest (qs ++ infos top.task) t rounds fewer all there in
            rw (e, behind, ← append_assoc qs (infos top.task) (posted infos (due_tasks now rest)))
              (goes_on now rounds top (push_all qs rest) t
                (with_tasks
                  (push_all ((qs ++ infos top.task) ++ posted infos (due_tasks now rest))
                    (later_tasks now rest))
                  t)
                (names (due_tasks now rest)) due (posts_later top.task)
                (rw (← push_all-append qs (infos top.task) rest) ih))
      ]

  posted-AllAfter :
      (now : ℤ)
      → ((task : ℕ) → AllAfter now (infos task))
      → (tasks : List DelayedTaskInfo) → AllAfter now (posted infos tasks)
  unfolding posted
  posted-AllAfter now h [] = tt
  posted-AllAfter now h (top ∷ rest) =
      All-append (λ info. now <ℤ info.due_time_micros) (infos top.task) (posted infos rest)
        (h top.task) (posted-AllAfter now h rest)

  scheduled :
      (start : Start) (now' : ℤ) (kept : List DelayedTaskInfo) (t : Timers)
      → t.timer_id_ ≡ none
      → schedule_next_timer c start now' (with_tasks kept (cancel t))
        ≡ some (start_timer c start now' (with_tasks kept (cancel t)))
  unfolding schedule_next_timer start_timer with_tasks cancel
  scheduled start now' [] t unused = ground (arith, unused)
  scheduled start now' (top ∷ rest) t unused = ground (arith, unused)

  -- On a queue in the order of the due times, with the fallback timer not in use, if what the tasks post is due
  -- after `now`, and with more rounds than tasks that are due: ProcessTimerTasksUpTo runs exactly the tasks due at `now`, in the
  -- order of the queue; it ends with the others and all that was posted in the queue, none of them due
  -- at `now`, and starts the timer for them, if one can be started; no check fails.
  pub process_timer_tasks_lem :
      (now now' : ℤ) (start : Start) (t : Timers) (top : DelayedTaskInfo)
      (rest : List DelayedTaskInfo) (rounds : ℕ)
      → t.timer_tasks_ ≡ top ∷ rest
      → t.timer_id_ ≡ none
      → IsSorted (top ∷ rest)
      → ((task : ℕ) → AllAfter now (infos task))
      → length (due_tasks now (top ∷ rest)) < rounds
      → let due = due_tasks now (top ∷ rest) in
        let kept = push_all (posted infos due) (later_tasks now (top ∷ rest)) in
        (process_timer_tasks c run_task rounds now now' start t
          ≡ some (start_timer c start now' (with_tasks kept (cancel t)), names due))
        × All (λ info. info.due_time_micros ≤ℤ now) due
        × AllAfter now kept
  unfolding process_timer_tasks cancel with_tasks push_all
  process_timer_tasks_lem now now' start t top rest rounds e unused v posts_later enough =
      let tasks = top ∷ rest in
      let after = later_tasks-AllAfter now tasks v in
      let kept = push_all (posted infos (due_tasks now tasks)) (later_tasks now tasks) in
      let result : Option (Timers × List ℕ) =
        some (with_tasks kept (cancel t), names (due_tasks now tasks)) in
      let looped : run_due_loop c run_task rounds now (cancel t) ≡ result =
        subst (λ ts. run_due_loop c run_task rounds now (with_tasks ts (cancel t)) ≡ result) (sym e)
          (loop now posts_later tasks [] (cancel t) rounds enough tt after) in
      (
        rw (process_timer_tasks, e, looped, scheduled start now' kept t unused) refl,
        due_tasks-All now tasks,
        AllAfter-push_all now (posted infos (due_tasks now tasks)) (later_tasks now tasks)
            (posted-AllAfter now posts_later (due_tasks now tasks)) after,
      )

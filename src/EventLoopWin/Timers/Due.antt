-- ===== src/EventLoopWin/Timers/Due.antt =====
-- What a round of the timers runs, when the tasks it runs may post delayed tasks themselves.
use io_base.Base.{
  ℕ, ◌≡◌, refl, if◌then◌else◌, List, [], ◌∷◌, ◌++◌, arith, All, Bool-cases, inl, inr, map, Option,
  none, some,
}
use io_base.Base.Int.{ℤ, ◌≤ℤ◌, ◌<ℤ◌, leb_ℤ, ltb_ℤ}
use io_base.Duration.{Durations}
use io_base.EventLoopWin.Timers.Defs.{
  DelayedTaskInfo, Timers, Start, push, due_time, post_delayed_task_on_task_queue,
}
use io_base.EventLoopWin.Timers.Queue.{AllFrom, IsSorted, push_all}

-- Every task is due after `now`.
abbrev pub AllAfter : ℤ → List DelayedTaskInfo → Type 0
AllAfter now = All (λ info. now <ℤ info.due_time_micros)

-- The tasks at the front of the queue that are due at `now`, and the others.
unfoldable pub due_tasks : ℤ → List DelayedTaskInfo → List DelayedTaskInfo
due_tasks now [] = []
due_tasks now (top ∷ rest) = if ltb_ℤ now top.due_time_micros then [] else top ∷ due_tasks now rest

unfoldable pub later_tasks : ℤ → List DelayedTaskInfo → List DelayedTaskInfo
later_tasks now [] = []
later_tasks now (top ∷ rest) =
    if ltb_ℤ now top.due_time_micros then top ∷ rest else later_tasks now rest

module _ (c : Durations) where
  open c use {Duration}

  -- A call of PostDelayedTaskOnTaskQueue, with its three readings of the clock.
  pub record Post : Type 0 where
    pub task : ℕ
    pub start_micros : ℤ
    pub delay : Duration
    pub now : ℤ
    pub now' : ℤ
    pub now'' : ℤ
    pub start : Start

  abbrev pub info_of : Post → DelayedTaskInfo
  info_of q = record {
    due_time_micros = due_time c q.start_micros q.delay q.now q.now';
    task = q.task;
  }

  unfoldable pub post_all : List Post → Timers → Option Timers
  post_all [] t = some t
  post_all (q ∷ qs) t =
      elim (post_delayed_task_on_task_queue c q.task q.start_micros q.delay q.now q.now' q.now''
        q.start t) [ none ↦ none | some u ↦ post_all qs u ]

  -- A task that runs is still on top of the queue. What it posts for later than it is due itself goes
  -- behind it, and neither cancels nor starts a timer.
  pub post_all-running :
      (qs : List Post) (t : Timers) (top : DelayedTaskInfo) (rest : List DelayedTaskInfo)
      → t.timer_tasks_ ≡ top ∷ rest
      → AllAfter top.due_time_micros (map info_of qs)
      → post_all qs t ≡ some (record t { timer_tasks_ = top ∷ push_all (map info_of qs) rest })
  unfolding post_all post_delayed_task_on_task_queue due_time push_all push
  post_all-running [] t top rest e later = ground arith
  post_all-running (q ∷ qs) t top rest e later =
      let info = info_of q in
      let here : post_delayed_task_on_task_queue c q.task q.start_micros q.delay q.now q.now'
            q.now'' q.start t
          ≡ some (record t { timer_tasks_ = top ∷ push info rest }) =
        ground arith in
      rw (post_all, here)
        (post_all-running qs (record t { timer_tasks_ = top ∷ push info rest }) top (push info rest)
          refl later.1)

pub AllAfter-trans :
    (a b : ℤ) (tasks : List DelayedTaskInfo) → a ≤ℤ b → AllAfter b tasks → AllAfter a tasks
AllAfter-trans a b [] h all = tt
AllAfter-trans a b (top ∷ rest) h all = (omega (arith, all.0), AllAfter-trans a b rest h all.1)

AllAfter-push :
    (due : ℤ) (info : DelayedTaskInfo) (tasks : List DelayedTaskInfo)
    → due <ℤ info.due_time_micros
    → AllAfter due tasks
    → AllAfter due (push info tasks)
unfolding push
AllAfter-push due info [] h all = (h, tt)
AllAfter-push due info (top ∷ rest) h all =
    elim (Bool-cases (leb_ℤ top.due_time_micros info.due_time_micros)) [
      | inl e ↦ rw (e, push) (all.0, AllAfter-push due info rest h all.1)
      | inr e ↦ rw (e, push) (h, all)
    ]

pub AllAfter-push_all :
    (due : ℤ) (infos tasks : List DelayedTaskInfo)
    → AllAfter due infos
    → AllAfter due tasks
    → AllAfter due (push_all infos tasks)
unfolding push_all
AllAfter-push_all due [] tasks h all = all
AllAfter-push_all due (info ∷ infos) tasks h all =
    AllAfter-push_all due infos (push info tasks) h.1 (AllAfter-push due info tasks h.0 all)

AllFrom-AllAfter :
    (a b : ℤ) (tasks : List DelayedTaskInfo) → a <ℤ b → AllFrom b tasks → AllAfter a tasks
AllFrom-AllAfter a b [] h all = tt
AllFrom-AllAfter a b (top ∷ rest) h all = (omega (arith, all.0), AllFrom-AllAfter a b rest h all.1)

pub later_tasks-AllAfter :
    (now : ℤ) (tasks : List DelayedTaskInfo) → IsSorted tasks → AllAfter now (later_tasks now tasks)
unfolding later_tasks
later_tasks-AllAfter now [] v = tt
later_tasks-AllAfter now (top ∷ rest) v = elim (Bool-cases (ltb_ℤ now top.due_time_micros)) [
  | inl e ↦
      let first : now <ℤ top.due_time_micros = ground (arith, e) in
      rw (e, later_tasks) (first, AllFrom-AllAfter now top.due_time_micros rest first v.0)
  | inr e ↦ rw (e, later_tasks) (later_tasks-AllAfter now rest v.1)
]

pub push_all-append :
    (xs bs tasks : List DelayedTaskInfo)
    → push_all (xs ++ bs) tasks ≡ push_all bs (push_all xs tasks)
unfolding push_all
push_all-append [] bs tasks = refl
push_all-append (a ∷ xs) bs tasks = push_all-append xs bs (push a tasks)

-- ===== src/EventLoopWin/Timers/Queue.antt =====
-- The order of the priority queue.
use io_base.Base.{◌≡◌, refl, ap, ◌∙◌, List, [], ◌∷◌, arith, All, Bool-cases, inl, inr}
use io_base.Base.Int.{ℤ, ◌≤ℤ◌, leb_ℤ}
use io_base.EventLoopWin.Timers.Defs.{DelayedTaskInfo, push}

-- No task is due before `due`.
abbrev pub AllFrom : ℤ → List DelayedTaskInfo → Type 0
AllFrom due = All (λ info. due ≤ℤ info.due_time_micros)

abbrev pub IsSorted : List DelayedTaskInfo → Type 0
IsSorted [] = Unit
IsSorted (top ∷ rest) = AllFrom top.due_time_micros rest × IsSorted rest

AllFrom-trans :
    (a b : ℤ) (tasks : List DelayedTaskInfo) → a ≤ℤ b → AllFrom b tasks → AllFrom a tasks
AllFrom-trans a b [] h all = tt
AllFrom-trans a b (top ∷ rest) h all = (omega (arith, all.0), AllFrom-trans a b rest h all.1)

AllFrom-push :
    (due : ℤ) (info : DelayedTaskInfo) (tasks : List DelayedTaskInfo)
    → due ≤ℤ info.due_time_micros
    → AllFrom due tasks
    → AllFrom due (push info tasks)
unfolding push
AllFrom-push due info [] h all = (h, tt)
AllFrom-push due info (top ∷ rest) h all =
    elim (Bool-cases (leb_ℤ top.due_time_micros info.due_time_micros)) [
      | inl e ↦ rw (e, push) (all.0, AllFrom-push due info rest h all.1)
      | inr e ↦ rw (e, push) (h, all)
    ]

-- Posting keeps the queue in the order of the due times.
pub push-IsSorted :
    (info : DelayedTaskInfo) (tasks : List DelayedTaskInfo)
    → IsSorted tasks
    → IsSorted (push info tasks)
unfolding push
push-IsSorted info [] v = (tt, tt)
push-IsSorted info (top ∷ rest) v =
    elim (Bool-cases (leb_ℤ top.due_time_micros info.due_time_micros)) [
      | inl e ↦
          rw (e, push)
            (
              AllFrom-push top.due_time_micros info rest (ground (arith, e)) v.0,
              push-IsSorted info rest v.1,
            )
      | inr e ↦
          let first : info.due_time_micros ≤ℤ top.due_time_micros = ground (arith, e) in
          rw (e, push)
            ((first, AllFrom-trans info.due_time_micros top.due_time_micros rest first v.0), v)
    ]

-- A task that is not due before the top goes behind it.
pub push-behind :
    (info top : DelayedTaskInfo) (rest : List DelayedTaskInfo)
    → top.due_time_micros ≤ℤ info.due_time_micros
    → push info (top ∷ rest) ≡ top ∷ push info rest
unfolding push
push-behind info top rest h = ground arith

unfoldable pub push_all : List DelayedTaskInfo → List DelayedTaskInfo → List DelayedTaskInfo
push_all [] tasks = tasks
push_all (info ∷ infos) tasks = push_all infos (push info tasks)

pub push_all-behind :
    (infos : List DelayedTaskInfo) (top : DelayedTaskInfo) (rest : List DelayedTaskInfo)
    → AllFrom top.due_time_micros infos
    → push_all infos (top ∷ rest) ≡ top ∷ push_all infos rest
unfolding push_all
push_all-behind [] top rest all = refl
push_all-behind (info ∷ infos) top rest all =
    ap (push_all infos) (push-behind info top rest all.0)
    ∙ push_all-behind infos top (push info rest) all.1

pub AllFrom-push_all :
    (due : ℤ) (infos tasks : List DelayedTaskInfo)
    → AllFrom due infos
    → AllFrom due tasks
    → AllFrom due (push_all infos tasks)
unfolding push_all
AllFrom-push_all due [] tasks h all = all
AllFrom-push_all due (info ∷ infos) tasks h all =
    AllFrom-push_all due infos (push info tasks) h.1 (AllFrom-push due info tasks h.0 all)

pub push_all-IsSorted :
    (infos tasks : List DelayedTaskInfo) → IsSorted tasks → IsSorted (push_all infos tasks)
unfolding push_all
push_all-IsSorted [] tasks v = v
push_all-IsSorted (info ∷ infos) tasks v =
    push_all-IsSorted infos (push info tasks) (push-IsSorted info tasks v)

-- ===== src/Lib.antt =====
-- Verification of io_base, the event loop of a C++ base library.
--
-- The program. EventLoop (event_loop.h, event_loop.cc) is a task queue bound to a thread: other threads
-- post tasks to it, and sockets report their events to it. EventLoopWin (event_loop_win.h,
-- event_loop_win.cc) is its implementation on Winsock. It keeps its registered sockets in a
-- LinkedHashMap (linked_hash_map.h), so that events are called in the order of registration, and its
-- delayed tasks in a priority queue with a multimedia timer. A blocking call waits on an Event (event.h,
-- event.cc); the clock is read through time_utils.h. One call of RunEventLoopOnce waits for an
-- event and processes pending tasks, due timers, or the sockets. EvenLoop (event_loop_temp.h,
-- event_loop_temp.cc) is an older server of descriptors: it waits by epoll, poll, select or Winsock
-- events, tells the dispatchers of what is ready, and is woken by a Signaler; its tables are guarded by
-- a RecursiveCriticalSection (recursive_critical_section.h, recursive_critical_section.cc). The stack
-- traces (stacktrace.h, stacktrace.cc) stand alone.
--
-- The files.
--   Base: the names that all share; Base.Bits the laws of masks, Base.Int the signed integers.
--   FlatHashMap: absl::flat_hash_map as a parameter, a record of operations and laws, with an
--     association list that fills it.
--   Duration: absl::Duration as a parameter.
--   LinkedHashMap: linked_hash_map.h. Defs has one function for each member function: insert,
--     insert_internal, emplace, index (operator[]), erase, erase_at (of an iterator), erase_range (of
--     two), find, clear, pop_front, swap. Entries and Contract have the specification: the list of the
--     entries in the order of insertion. Invariant has what ties the table to the list.
--   Event: event.cc, the implementation on pthreads. Set, Reset, GetTimespec and Wait (Defs); Waits
--     for how a wait ends, Exclusive for two waits on one signal, Deadlines for GetTimespec; Windows has
--     the timeout of Wait there.
--   EventLoop: event_loop.cc. Begin, Quit, PostTaskImpl, PostDelayedTaskImpl, RunPendingTasks and
--     BlockingCallImpl (Defs); Rounds for what one round runs, Wakeups for the loop's thread and the
--     threads that post in any interleaving, Blocking for the Events of blocking calls, Results for
--     BlockingCall with a result, TaskQueue for the public functions of task_queue_base.h.
--   EventLoopWin.Masks: GetPollMask and GetEventMask.
--   EventLoopWin.Sockets: RegisterSocket, UnregisterSocket, RearmSocket, ArtificiallyNotifyEvent
--     (Defs), ProcessSocketEvents, DispatchSocketEvent, RunReadyCallbacks (Poll).
--   EventLoopWin.Timers: PostDelayedTaskOnTaskQueue, RunDueTasks, ScheduleNextTimer, CancelTimers,
--     ProcessTimerTasksUpTo and MultimediaTimer (Defs).
--   EventLoopWin.Once: RunEventLoopOnce.
--   EvenLoop: event_loop_temp.cc. Defs has the dispatchers, ProcessEvents, ProcessPollEvents and the
--     Signaler; Told what a dispatcher is told. EvenLoop.Interest: AddEpoll, RemoveEpoll and UpdateEpoll
--     on the interest list of epoll, which is an interface. EvenLoop.Waits: WaitEpoll,
--     WaitPollOneDispatcher, WaitPoll (Defs), WaitSelect (Select) and Wait (Wait), on a loop of rounds
--     (Loop); Tells and Keeps have what a wait keeps, Ends and Returns when it returns, Signals, Removed,
--     Wakeups, Lasting, Timeouts and Timevals the properties of the waits. EvenLoop.Windows: Wait on
--     Windows. Construct has the constructors, the destructors and Add, Remove and Update, Unheard what
--     comes of it that these have no body.
--   CriticalSection: recursive_critical_section.cc on macOS, the implementation that
--     USE_NATIVE_MUTEX_ON_MAC switches off: Enter, TryEnter and Leave as steps of threads (Defs), the invariant (Invariant for one thread, Stands and Sound for all), and Exclusive.
--     CriticalSection.Native: the same on a recursive mutex of pthreads (an interface, Mutexes), with the
--     fields that the checks need; Sound and Steps have the invariant, Checks that no check fails.
--   FunctionView: function_view.h. The constructors, the call and operator bool (Defs), in programs
--     with many views (Programs); Refines has what a view promises, Typed the types behind it.
--   Logging: logging.h and logging.cc. InitializeLog, DeInitializeLog and Send (Defs), on the registry of
--     absl (an interface, Sinks); Sessions and Again have what programs come to that call them.
--   PlatformThread: SetCurrentThreadName of platform_thread_types.cc on Windows (Defs, Names).
--   StackTrace: stacktrace.cc. UnwindBacktrace, SignalHandler, CaptureRawStacktrace, FormatStackTrace,
--     GetStackTrace and StackTraceToString (Defs), and what is captured (Captures).
--   Time: time_utils.h and time_utils.cc.
--   Yield: yield_policy.h and yield_policy.cc.
--
-- How it is modelled. State is a record that an operation takes and returns. A failed ABSL_CHECK, and
-- where a file says so a failed ABSL_DCHECK, is `none`. What the system answers (whether WSAEventSelect succeeded, what WSAEnumNetworkEvents
-- reported, what the clock says, whether timeSetEvent or SetTimer started a timer) is an argument, and so is what a
-- callback or a task does to the loop. A wait of an Event runs on a list of wake-ups, each with the
-- error code of its return and what other threads did to the event meanwhile. The flags of winsock2.h
-- are parameters. A shared_ptr to a Registration is the number of the registration, which is never used
-- twice, and a weak_ptr locks while an entry of the map still owns it. Iterators are the identities of
-- list nodes. A wait of EvenLoop runs on a list of rounds, each with what the system call answers to its
-- arguments, whether another thread calls WakeUp in the meantime, what getsockopt says, and the clock at
-- the end of the round; what the OnEvent of a dispatcher does to the loop is an argument. Threads at a
-- RecursiveCriticalSection run in an interleaving that is a list of thread numbers and calls.
--
-- Bounds and fuel. Masks are natural numbers below 256 where the code has a uint8_t. The loop of
-- erase(first, last) has one round for each node and one more, which is always enough. The loop of
-- RunDueTasks has a bound on its rounds that is an argument: more rounds than tasks that are due are
-- enough when tasks post nothing that is due at once. Times are integers without overflow, but for the
-- conversions to int of event_loop_temp.cc, which wrap around at 2^31. The loop of Enter has the 3000
-- rounds of the source. The rounds of a wait are a list of any length.
--
-- Assumed: the eventfd of a Signaler and the epoll descriptor could be created.
--
-- Not modelled: the reverse iterators and the moves of LinkedHashMap; constructors and destructors of
-- Event and EventLoopWin, which only call the system; Set and Reset of Event on Windows and
-- RecursiveCriticalSection on Windows, which are one call of the system each; CritScope, which is a call
-- of Enter and one of Leave; the functions on thread ids, which call the platform;
-- task_queue_base.cc, which is switched off; how C++ selects a constructor of FunctionView.
pub mod Base
pub mod CriticalSection
pub mod Duration
pub mod EvenLoop
pub mod Event
pub mod EventLoop
pub mod EventLoopWin
pub mod FlatHashMap
pub mod FunctionView
pub mod LinkedHashMap
pub mod Logging
pub mod PlatformThread
pub mod StackTrace
pub mod Time
pub mod Yield

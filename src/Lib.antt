-- ===== src/Lib.antt =====
-- Verification library of the task manager. Its front end: the timers, the budget of available time, the
-- run state of tasks, the list of tasks with its optimistic updates, the D-day labels, the simulated
-- server, the page of today, the election of a tab and the channel to the audio daemon. Its alarm
-- service: the tasks, the budget and the priority of a user's day over a database, the alarms, the
-- notices about late tasks, and the client that shows them.
--
-- The parts, their files and the code:
--   Timer (frontend/src/lib/timerEngine.js) is the timer of one task. TimerStore
--   (context/TimerContext.jsx) keeps the timers of all tasks: its `reducer` has a constructor of
--   `Action` for each case of the source, `complete_task` and `on_visibility` are the provider's
--   callback and handler. TimerStore/Zustand (stores/timerStore.js) is the same store with the
--   interval that ticks. A completion hands its refund to Availability (lib/availability.js, the
--   reducer of context/AvailableTimeContext.jsx; stores/availableTimeStore.js has the same actions).
--   Runtime (lib/taskRuntime.js) is the run state of one task, and Runtime/Hook
--   (hooks/useTaskRuntime.js) the map of all of them.
--   Dday (api/tasks.js, hooks/useNotifications.js, lib/displayStatus.js) writes and reads the labels.
--   Tasks (lib/taskStoreCore.js, lib/displayStatus.js) has the statuses, the buttons and the pure
--   operations on the list of tasks; TaskStore (context/TaskContext.jsx) the state around it, and
--   TaskStore/Zustand (stores/taskStore.js) the same as a Zustand store. An asynchronous action is
--   split where it waits for the server: `update_begin` and `update_end`, `fetch_begin` and
--   `fetch_end`; TaskStore/Schedule has them in any order as steps.
--   Backend (api/mock.js) is the server that the front end simulates in memory: each operation is a
--   function of the server's state. Backend/Time has those on the available time, Backend/Notices
--   those on the notices about late tasks; a refusal is a constructor of `Reply`.
--   TaskList (hooks/useTasks.js) is the page's own list of tasks, whose rows are the server's tasks.
--   TodayPage (pages/TodayTasksPage.jsx, `toViewModel` of api/tasks.js) chooses and orders what the
--   page of today shows.
--   PrimaryTab (lib/primaryTab.js) elects one of the open tabs.
--   Ipc (lib/ipcProtocol.js, api/daemonIpc.js) has the frames and the client of the audio daemon.
--   Alarm (alarm-system/src) is the service. Its requests on tasks, in Alarm/Requests
--   (routes/taskTimeRoutes.ts, routes/priorityRoutes.ts and the deletion of
--   routes/notificationRoutes.ts), call Alarm/AvailableTime, Alarm/TaskStatus and Alarm/Priority
--   (services/availableTimeService.ts, taskStatusService.ts, priorityTaskService.ts), which read and
--   write the tables of Alarm/Database. Alarm/Transitions (state/taskTransitions.ts) says which action a
--   status allows, Alarm/Errors (errors/errorCodes.ts) what a request may be refused with.
--   Alarm/Scan (queue/overdueNotificationScheduler.ts) makes the notices of late tasks, whose texts are
--   in Alarm/Messages (notifications/messages.ts, overdue.ts) with the titles made safe in
--   Alarm/Sanitize (lib/sanitize.ts, lib/mask.ts); Alarm/Notices (realtime/notificationDispatcher.ts)
--   delivers them, and Alarm/NoticeRequests (routes/notificationRoutes.ts, notifications/queries.ts)
--   lists, reads and dismisses them. Alarm/BadgeCache (cache/notificationBadgeCache.ts) is the lock
--   around the count that the badge shows. Alarm/Scheduler (queue/alarmScheduler.ts) plans the
--   alarms, Alarm/Sockets (realtime/socketHandler.ts, types/alarm.ts) sends them,
--   Alarm/AlarmRequests (routes/alarmRoutes.ts) lists them, and Alarm/Manager
--   (client/AlarmManager.ts) is their client on the page. Alarm/Access (middleware/auth.ts,
--   rateLimit.ts) decides which requests pass, Alarm/Order is the sort of ORDER BY.
--   Common has what the parts share: tests, lists, dictionaries, signed integers, options, texts.
-- Paths without a folder are those of frontend/src/, and in the paragraph on Alarm those of
-- alarm-system/src/.
--
-- How the code is read. A function that throws a TypeError gives `none`. Times are whole milliseconds
-- of a clock that is an argument, so a timer's durations, which the source has in seconds with
-- fractions, are exact; the budget and the counters of the run state are whole seconds, as in the
-- source. `Math.max(0, a - b)` is the subtraction of natural numbers. Ids of tasks are numbers that
-- stand for their texts; where the source tells a number from its text, in useTaskRuntime.js, `TaskId`
-- does so too. The local midnight of an instant, and the text of a payload in JSON, belong to the
-- language's library: the first is an argument of `dday_label`, the second the record `Codec` with the
-- laws `IsFaithful`. A socket is its `readyState`, and a timer that waits its delay.
--   In the service a query is a function on lists of rows, written from its SQL, in a monad of the
-- database with errors; a transaction that throws gives back the rows it began with, and the locks
-- of the source make transactions run one after the other. What the database, Redis, BullMQ and the
-- sockets answer, that is whether a call goes through, is an argument; so are the check of a token,
-- the calendar of a time zone, and the clock. A date is the number of its key, an id a number. A
-- number of a request's body is `Amount`: a whole number, or anything else. The requests on tasks
-- run one after the other, and time passes only in pauses.
--   Every loop goes down a list, or counts down the rounds that the source gives it, but two.
-- `scan_loop`, the `while (true)` of the scan, has a bound on its rounds, for which one more than
-- there are late tasks is enough, since a page that is not empty moves the cursor over one of them.
-- `decimal`, the digits of a number, has the number itself as fuel, and each digit divides it.
--
-- Not modelled: React's rendering, the components and the rest of the pages, localStorage,
-- BroadcastChannel and the calls of the server, which are network; the recognition of speech and
-- what is read out of it (lib/voiceNlp.js, lib/voiceGemini.js); the seeds and the priority weights
-- of api/mock.js; in the front end numbers with fractions, NaN and dates that do not parse, so that
-- a budget is asked for with a whole number of seconds only; and the rounding of the timers' sums,
-- which are floating. Of the service: the start of the program in app.ts, requests that overlap, the
-- registration of the nightly job, the log lines, and in the client the styles, the fetches and the
-- animation. The audio daemon and the Java server are other programs.
pub mod Alarm
pub mod Common
pub mod Timer
pub mod TimerStore
pub mod Availability
pub mod Runtime
pub mod Dday
pub mod Tasks
pub mod TaskStore
pub mod Ipc
pub mod Backend
pub mod TaskList
pub mod PrimaryTab
pub mod TodayPage

-- ===== src/Alarm/Manager.antt =====
-- alarm-system/src/client/AlarmManager.ts: the alarms on the page of a user. What is drawn is the list
-- of toasts; styles and animations are left out.
pub mod Escape
pub mod Shown
pub mod Reorder
mod Tests
use task_manger_project.Common.{
  ℕ, Bool, true, false, not, Option, none, some, List, [], ltb, filter, any, codes, decimal, codes,
  decimal, ◌+◌, ◌&&◌, ◌∷◌, ◌++◌, ◌==◌, if◌then◌else◌,
}
use task_manger_project.Alarm.Sockets.{AlarmEvent, Message, alarm_triggered, unread_count}

-- `has_container` and `has_badge` say whether the page has these elements; `connected` whether there
-- is a socket; `reads_asked` counts the requests to mark all as read.
pub record Manager : Type 0 where
  pub connected : Bool
  pub shown : List ℕ
  pub has_container : Bool
  pub toasts : List AlarmEvent
  pub has_badge : Bool
  pub badge_text : List ℕ
  pub badge_visible : Bool
  pub is_panel_open : Bool
  pub reads_asked : ℕ
  pub heard : List AlarmEvent

unfoldable pub connect : Manager → Manager
connect m = record m { connected = true }

unfoldable pub disconnect : Manager → Manager
disconnect m = record m { connected = false }

unfoldable pub set_panel_state : Bool → Manager → Manager
set_panel_state is_open m = record m {
  is_panel_open = is_open;
  reads_asked = if is_open then m.reads_asked + 1 else m.reads_asked;
}

unfoldable pub render_toast : AlarmEvent → Manager → Manager
render_toast alarm m = if m.has_container then record m { toasts = m.toasts ++ alarm ∷ [] } else m

-- `heard` are the calls of `onAlarmTriggered`.
unfoldable pub handle_alarm_triggered : AlarmEvent → Manager → Manager
unfolding render_toast
handle_alarm_triggered alarm m =
    if any (λ id. id == alarm.alarm_id) m.shown
    then m
    else render_toast alarm
        (record m { shown = alarm.alarm_id ∷ m.shown; heard = m.heard ++ alarm ∷ [] })

-- After 5 seconds, and the exit of the toast.
unfoldable pub dismiss_toast : ℕ → Manager → Manager
dismiss_toast id m = record m { toasts = filter (λ a. not (a.alarm_id == id)) m.toasts }

unfoldable pub badge_text_of : ℕ → List ℕ
unfolding decimal
badge_text_of count = if ltb 99 count then codes "99+" else decimal count

unfoldable pub update_bell_badge : ℕ → Manager → Manager
unfolding badge_text_of
update_bell_badge count m =
    if not m.has_badge
    then m
    else if ltb 0 count
    then record m { badge_text = badge_text_of count; badge_visible = true }
    else record m { badge_text = []; badge_visible = false }

-- The listeners of `connect`.
unfoldable pub on_message : Message → Manager → Manager
unfolding handle_alarm_triggered update_bell_badge
on_message (alarm_triggered alarm) m = handle_alarm_triggered alarm m
on_message (unread_count count) m = update_bell_badge count m

unfoldable pub on_messages : List Message → Manager → Manager
unfolding on_message
on_messages [] m = m
on_messages (x ∷ xs) m = on_messages xs (on_message x m)

-- `str.replace(/c/g, w)`
unfoldable pub replace_all : ℕ → List ℕ → List ℕ → List ℕ
replace_all c w [] = []
replace_all c w (d ∷ ds) = let rest = replace_all c w ds in if d == c then w ++ rest else d ∷ rest

unfoldable pub escape_html : List ℕ → List ℕ
unfolding replace_all
escape_html str = replace_all 39 (codes "&#039;") (
    replace_all 34 (codes "&quot;") (
      replace_all 62 (codes "&gt;")
        (replace_all 60 (codes "&lt;") (replace_all 38 (codes "&amp;") str))))

-- A child of the list's container, with the task that it shows, if any.
pub record Child : Type 0 where
  pub node : ℕ
  pub task : Option ℕ
  pub is_marked : Bool
  pub badge : Option ℕ

-- A row of the answer of /api/tasks/today.
pub record TodayRow : Type 0 where
  pub task_id : ℕ
  pub is_deferred : Bool
  pub deferred_count : ℕ

abbrev pub shows : ℕ → Option ℕ → Bool
shows id none = false
shows id (some t) = t == id

-- `nodeMap.get(id)`: the last child that was set under the id.
unfoldable pub node_of : ℕ → List Child → Option Child
node_of id [] = none
node_of id (c ∷ cs) = or_here (node_of id cs) (shows id c.task) c
  where
    or_here : Option Child → Bool → Child → Option Child
    or_here (some d) b c = some d
    or_here none true c = some c
    or_here none false c = none

-- A task that was put off gets a border and a badge with the number of times.
abbrev pub dressed : TodayRow → Child → Child
dressed row c =
    if row.is_deferred && ltb 0 row.deferred_count
    then record c { is_marked = true; badge = some row.deferred_count }
    else record c { is_marked = false; badge = none }

-- `container.appendChild(node)` takes the node from where it was.
abbrev pub moved : TodayRow → Option Child → List Child → List Child
moved row none children = children
moved row (some c) children = filter (λ d. not (d.node == c.node)) children ++ dressed row c ∷ []

-- `all` are the children from before, of which the map was made.
unfoldable pub append_rows : List Child → List TodayRow → List Child → List Child
unfolding node_of
append_rows all [] children = children
append_rows all (row ∷ rows) children =
    append_rows all rows (moved row (node_of row.task_id all) children)

unfoldable pub animate_task_reordering : List TodayRow → List Child → List Child
unfolding append_rows
animate_task_reordering rows children = append_rows children rows children

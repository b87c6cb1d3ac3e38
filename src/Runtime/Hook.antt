-- ===== src/Runtime/Hook.antt =====
-- frontend/src/hooks/useTaskRuntime.js: the map of entries, by task. A task id is a number or a
-- text; `===` tells the two apart and the keys of an object do not. Each update of the map reads the
-- clock once.
use task_manger_project.Common.{
  ℕ, Bool, true, false, not, Option, none, some, List, [], Dict, get, put, map_entries, ◌&&◌, ◌||◌,
  ◌∷◌, ◌==◌, ◌or◌, if◌then◌else◌,
}
use task_manger_project.Runtime.{
  Entry, paused, completed, same_status, is_running, start_entry, resume_entry, pause_entry,
  finish_entry, empty_entry,
}

-- An id, with the property name that it has as a key.
pub data TaskId : Type 0 where
  num text : ℕ → TaskId

abbrev pub key : TaskId → ℕ
key (num k) = k
key (text k) = k

-- `name !== id`, where `name` comes from `Object.keys`, so it is a text.
abbrev pub differs : ℕ → TaskId → Bool
differs name (num k) = true
differs name (text k) = not (name == k)

unfoldable pub has_running : Dict Entry → Bool
has_running [] = false
has_running ((k, e) ∷ m) = is_running e || has_running m

unfoldable pub get_entry : Dict Entry → TaskId → Entry
unfolding empty_entry
get_entry m id = get (key id) m or empty_entry

unfoldable pub pause_others : TaskId → ℕ → Dict Entry → Dict Entry
pause_others id now =
    map_entries (λ k e. if differs k id && is_running e then pause_entry (some e) now else e)

unfoldable pub start : TaskId → ℕ → Dict Entry → Dict Entry
unfolding pause_others empty_entry
start id now m = put (key id) (start_entry (some empty_entry) now) (pause_others id now m)

abbrev pub is_paused : Entry → Bool
is_paused e = same_status e.status paused

-- A paused entry goes on; any other state of the task starts anew.
unfoldable pub resumed : Option Entry → ℕ → Entry
unfolding empty_entry
resumed none now = start_entry (some empty_entry) now
resumed (some e) now =
    if is_paused e then resume_entry (some e) now else start_entry (some empty_entry) now

unfoldable pub resume : TaskId → ℕ → Dict Entry → Dict Entry
unfolding pause_others resumed
resume id now m =
    let draft = pause_others id now m in put (key id) (resumed (get (key id) draft) now) draft

unfoldable pub pause : TaskId → ℕ → Dict Entry → Dict Entry
unfolding empty_entry
pause id now m = put (key id) (pause_entry (some (get (key id) m or empty_entry)) now) m

-- The map and the final entry, which is made of the map that was last rendered.
unfoldable pub finish : TaskId → ℕ → Dict Entry → Dict Entry → Dict Entry × Entry
unfolding empty_entry
finish id now rendered m =
    let done = finish_entry (some (get (key id) rendered or empty_entry)) now in
    (put (key id) done m, done)

unfoldable pub clear_completed : Dict Entry → Dict Entry
clear_completed [] = []
clear_completed ((k, e) ∷ m) =
    let rest = clear_completed m in
    if not (same_status e.status completed) then (k, e) ∷ rest else rest

pub data Op : Type 0 where
  starts resumes pauses : TaskId → ℕ → Op
  finishes : TaskId → ℕ → Dict Entry → Op
  clears : Op

unfoldable pub apply : Op → Dict Entry → Dict Entry
unfolding start resume pause finish clear_completed
apply (starts id now) m = start id now m
apply (resumes id now) m = resume id now m
apply (pauses id now) m = pause id now m
apply (finishes id now rendered) m = (finish id now rendered m).0
apply clears m = clear_completed m

unfoldable pub apply_all : List Op → Dict Entry → Dict Entry
apply_all [] m = m
apply_all (op ∷ ops) m = apply_all ops (apply op m)

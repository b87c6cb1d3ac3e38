-- ===== src/Runtime/Tests.antt =====
-- taskRuntime.js and useTaskRuntime.js at concrete inputs.
use task_manger_project.Common.{ℕ, refl, none, some, List, [], get, put, map_entries, ◌≡◌, ◌∷◌}
use task_manger_project.Runtime.{
  Entry, RunStatus, running, paused, completed, is_running, display_seconds, pause_entry,
  finish_entry,
}
use task_manger_project.Runtime.Hook.{
  TaskId, num, text, Op, starts, resumes, pauses, apply_all, start, resume, get_entry,
}
use task_manger_project.Runtime.Single.{one_entry_runs}

abbrev entry : Entry
entry = record {
  status = running;
  elapsed_seconds = 0;
  run_start_ms = some 1000;
  started_at = some 1000;
  completed_at = none;
}

-- Task 2 is started while task 1 runs.
abbrev ops : List Op
ops = starts (num 1) 1000 ∷ starts (num 2) 4000 ∷ []

abbrev second : Entry
second = record entry { run_start_ms = some 4000; started_at = some 4000 }

one_entry_runs_example : ◌≡◌ {A = ℕ} 2 2
unfolding get apply_all task_manger_project.Runtime.Hook.apply put map_entries
    task_manger_project.Runtime.start_entry
one_entry_runs_example = one_entry_runs ops 2 2 second second refl refl refl refl

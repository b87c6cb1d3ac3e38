-- ===== src/TodayPage/Tests.antt =====
-- TodayTasksPage.jsx at concrete inputs.

use task_manger_project.Common.{Bool, true, false, some, List, [], codes, codes, ◌≡◌, ◌&&◌, ◌∷◌}
use task_manger_project.Backend.{Status, medium}
use task_manger_project.TodayPage.{Row, row_of, View, plain, zombie, priority, adaptive, pending}
use task_manger_project.TodayPage.Shown.{count, is_listed, Sorted, pending_lem}

abbrev review : View
review = record {
  id = 2;
  title = "review";
  description = "";
  estimated_minutes = 60;
  required_energy = medium;
  importance = 3;
  status = Status.pending;
  delay_count = 0;
  dday = some (codes "D-3");
  variant = plain;
  is_priority = false;
  is_zombie = false;
}

abbrev report : View
report = record review {
  id = 1;
  title = "report";
  importance = 5;
  variant = priority;
  is_priority = true;
}

abbrev old : View
old = record review { id = 3; title = "old"; delay_count = 6; variant = zombie; is_zombie = true }

abbrev views : List View
views = report ∷ review ∷ old ∷ []

pending_lem_example :
    ((p : Row → Bool)
      → count p (pending (λ t. true) views medium 240 adaptive)
        ≡ count (λ t. is_listed (λ u. true) t && p (row_of medium 240 t)) views)
    × Sorted adaptive (pending (λ t. true) views medium 240 adaptive)
pending_lem_example = pending_lem (λ t. true) views medium 240 adaptive

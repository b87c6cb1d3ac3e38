-- ===== src/TodayPage.antt =====
-- frontend/src/pages/TodayTasksPage.jsx: which tasks the page shows, and in which order, with
-- `toViewModel` of api/tasks.js. What is only printed (tags, the label of the importance) is left
-- out. Whether a view matches the search is an argument, since the text functions are the
-- language's. The available time is in minutes.
pub mod Shown
pub mod Order
mod Tests
use Prim.Native.String.{String}
use task_manger_project.Common.{
  ℕ, Bool, true, false, not, Option, some, List, [], map, leb, filter, find, any, ℤ, leb_ℤ, ◌+◌,
  ◌&&◌, ◌||◌, ◌∷◌, if◌then◌else◌,
}
use task_manger_project.Dday.{dday_label, dday_num}
use task_manger_project.Backend.{Task, Status, Energy, low, medium, high, completed, energy_rank}

pub data Variant : Type 0 where
  zombie priority plain : Variant

pub record View : Type 0 where
  pub id : ℕ
  pub title : String
  pub description : String
  pub estimated_minutes : ℕ
  pub required_energy : Energy
  pub importance : ℕ
  pub status : Status
  pub delay_count : ℕ
  pub dday : Option (List ℕ)
  pub variant : Variant
  pub is_priority : Bool
  pub is_zombie : Bool

-- `midnight` is that of `ddayLabel`.
unfoldable pub to_view_model : (ℕ → ℤ) → ℕ → Task → View
to_view_model midnight now t =
    let is_zombie' = leb 5 t.delay_count in
    let is_priority' = t.is_priority || leb 5 t.importance in
    record {
      id = t.task_id;
      title = t.title;
      description = t.description;
      estimated_minutes = t.estimated_minutes;
      required_energy = t.required_energy;
      importance = t.importance;
      status = t.status;
      delay_count = t.delay_count;
      dday = dday_label midnight t.deadline now;
      variant = if is_zombie' then zombie else if is_priority' then priority else plain;
      is_priority = is_priority';
      is_zombie = is_zombie';
    }

pub data Level : Type 0 where
  critical_level high_level medium_level low_level : Level

abbrev pub energy_score : Option Energy → ℕ
energy_score (some low) = 0
energy_score (some high) = 2
energy_score _ = 1

unfoldable pub compute_priority : Option Energy → ℕ → Level
compute_priority energy minutes =
    let score =
      energy_score energy + (if leb 300 minutes then 2 else if leb 150 minutes then 1 else 0) in
    if leb 4 score
    then critical_level
    else if leb 3 score
    then high_level
    else if leb 1 score
    then medium_level
    else low_level

pub data SortMode : Type 0 where
  adaptive deadline importance : SortMode

-- A view with whether it fits the energy and the time.
pub record Row : Type 0 where
  pub view : View
  pub fits : Bool

unfoldable pub row_of : Energy → ℕ → View → Row
row_of energy minutes v = record {
  view = v;
  fits =
      leb (energy_rank v.required_energy) (energy_rank energy) && leb v.estimated_minutes minutes;
}

-- Whether the comparison of the source is at most 0.
unfoldable pub goes_before : SortMode → Row → Row → Bool
goes_before deadline a b = leb_ℤ (dday_num a.view.dday) (dday_num b.view.dday)
goes_before importance a b = leb b.view.importance a.view.importance
goes_before adaptive a b =
    if a.view.is_zombie
    then (if b.view.is_zombie then a.fits || not b.fits else true)
    else if b.view.is_zombie
    then false
    else a.fits || not b.fits

unfoldable pub insert : (Row → Row → Bool) → Row → List Row → List Row
insert before r [] = r ∷ []
insert before r (s ∷ rest) = if before r s then r ∷ s ∷ rest else s ∷ insert before r rest

-- The language's sort, which is stable.
unfoldable pub sort : (Row → Row → Bool) → List Row → List Row
sort before [] = []
sort before (r ∷ rest) = insert before r (sort before rest)

module _ (matches : View → Bool) where
  unfoldable pub priority_task : List View → Option View
  priority_task views = find (λ t. t.is_priority && not t.is_zombie && matches t) views

  unfoldable pub pending : List View → Energy → ℕ → SortMode → List Row
  pending views energy minutes mode = sort (goes_before mode) (
      map (row_of energy minutes)
        (filter matches (filter (λ t. not t.is_priority || t.is_zombie) views)))

abbrev pub is_completed : Status → Bool
is_completed completed = true
is_completed _ = false

unfoldable pub has_priority_task : List View → Bool
has_priority_task views = any (λ t. t.is_priority && not (is_completed t.status)) views

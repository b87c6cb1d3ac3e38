-- ===== src/Runtime/Machine.antt =====
-- taskRuntime.js: the four functions against the diagram in the file's header.
use mathlib.Core.Bool.{false≢true}
use task_manger_project.Common.{
  ℕ, refl, sym, ap, inl, inr, true, false, Option, some, List, [], arith, Bool-cases, ◌≡◌, ◌∙◌, ◌↔◌,
  ◌⊎◌, ◌∷◌,
}
use task_manger_project.Runtime.{
  RunStatus, Entry, idle, running, paused, completed, start_entry, resume_entry, pause_entry,
  finish_entry, can_transition,
}

-- The diagram of the comment, as a relation.
infix 40 ◌⟶◌
pub data ◌⟶◌ : RunStatus → RunStatus → Type 0 where
  start : idle ⟶ running
  stop : running ⟶ paused
  end : running ⟶ completed
  restart : paused ⟶ running
  end_paused : paused ⟶ completed

ruleset edges = (start, stop, end, restart, end_paused)

edge_of : (s u : RunStatus) → can_transition s u ≡ true → s ⟶ u
unfolding can_transition
edge_of s u h = grind (arith, edges)

of_edge : {s u : RunStatus} → s ⟶ u → can_transition s u ≡ true
unfolding can_transition
of_edge start = refl
of_edge stop = refl
of_edge end = refl
of_edge restart = refl
of_edge end_paused = refl

-- The table decides the diagram, in both directions.
pub can_transition_iff : (s u : RunStatus) → (can_transition s u ≡ true) ↔ (s ⟶ u)
can_transition_iff s u = (edge_of s u, of_edge)

pub data Op : Type 0 where
  starts resumes pauses finishes : Op

unfoldable pub apply : Op → Option Entry → ℕ → Entry
unfolding start_entry resume_entry pause_entry finish_entry
apply starts e now = start_entry e now
apply resumes e now = resume_entry e now
apply pauses e now = pause_entry e now
apply finishes e now = finish_entry e now

abbrev pub target : Op → RunStatus
target starts = running
target resumes = running
target pauses = paused
target finishes = completed

apply_moves :
    (op : Op) (e : Entry) (now : ℕ)
    → can_transition e.status (target op) ≡ true
    → (apply op (some e) now).status ≡ target op
unfolding apply
apply_moves starts e now h = ground arith
apply_moves _ e now h = ground arith

apply_stays :
    (op : Op) (e : Entry) (now : ℕ)
    → can_transition e.status (target op) ≡ false
    → apply op (some e) now ≡ e
unfolding apply
apply_stays starts e now h = ground arith
apply_stays _ e now h = ground arith

no_exit : (op : Op) → can_transition completed (target op) ≡ false
unfolding can_transition
no_exit op = ground arith

-- Each function goes along the edge to its own status if the diagram has one, and else returns the
-- entry as it is.
pub apply-allowed :
    (op : Op) (e : Entry) (now : ℕ)
    → ((e.status ⟶ target op) × ((apply op (some e) now).status ≡ target op))
      ⊎ (¬ (e.status ⟶ target op) × (apply op (some e) now ≡ e))
apply-allowed op e now = elim (Bool-cases (can_transition e.status (target op))) [
  | inl ok ↦ inl (edge_of e.status (target op) ok, apply_moves op e now ok)
  | inr no_edge ↦
      inr (λ edge. false≢true (sym no_edge ∙ of_edge edge), apply_stays op e now no_edge)
]

unfoldable pub apply_all : List (Op × ℕ) → Entry → Entry
apply_all [] e = e
apply_all ((op, now) ∷ rest) e = apply_all rest (apply op (some e) now)

-- A completed entry never changes again.
pub completed_final : (ops : List (Op × ℕ)) (e : Entry) → e.status ≡ completed → apply_all ops e ≡ e
unfolding apply_all
completed_final [] e h = refl
completed_final ((op, now) ∷ rest) e h =
    let stuck = apply_stays op e now (rw h (no_exit op)) in
    ap (apply_all rest) stuck ∙ completed_final rest e h

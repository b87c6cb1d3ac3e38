-- ===== src/Alarm/Manager/Escape.antt =====
-- AlarmManager.ts: the five replacements of `escapeHTML` one after the other.
use task_manger_project.Common.{
  ℕ, refl, ap, List, [], arith, codes, codes, ◌≡◌, ◌∙◌, ◌∷◌, ◌++◌, ◌==◌, if◌then◌else◌,
}
use task_manger_project.Alarm.Manager.{replace_all, escape_html}

-- What stands for one character.
unfoldable pub entity : ℕ → List ℕ
entity c =
    if c == 38
    then codes "&amp;"
    else if c == 60
    then codes "&lt;"
    else if c == 62
    then codes "&gt;"
    else if c == 34
    then codes "&quot;"
    else if c == 39
    then codes "&#039;"
    else c ∷ []

unfoldable pub escape_once : List ℕ → List ℕ
unfolding entity
escape_once [] = []
escape_once (c ∷ cs) = entity c ++ escape_once cs

escape-cons : (c : ℕ) (cs : List ℕ) → escape_html (c ∷ cs) ≡ entity c ++ escape_html cs
unfolding escape_html replace_all entity
escape-cons c cs = ground arith

-- The replacements do not meet each other's results: together they put each of the five characters'
-- own entity in its place, and leave all others.
pub escape_html-once : (cs : List ℕ) → escape_html cs ≡ escape_once cs
unfolding escape_once
escape_html-once [] = unfold escape_html in refl
escape_html-once (c ∷ cs) = escape-cons c cs ∙ ap (λ r. entity c ++ r) (escape_html-once cs)

-- ===== src/Alarm/Sanitize.antt =====
-- alarm-system/src/lib/sanitize.ts and lib/mask.ts: titles made safe for a message and for a log.
-- A text is the list of its UTF-16 units.
pub mod Safe
use task_manger_project.Common.{
  ℕ, zero, suc, Bool, true, false, not, Option, none, some, List, [], leb, length, take, filter,
  any, codes, decimal, codes, decimal, ◌&&◌, ◌||◌, ◌∷◌, ◌++◌, ◌==◌, if◌then◌else◌,
}

-- What `trim` takes for white space.
abbrev pub is_space : ℕ → Bool
is_space c =
    (leb 9 c && leb c 13)
    || (c == 32)
    || (c == 160)
    || (c == 5760)
    || (leb 8192 c && leb c 8202)
    || (c == 8232)
    || (c == 8233)
    || (c == 8239)
    || (c == 8287)
    || (c == 12288)
    || (c == 65279)

unfoldable pub trim_start : List ℕ → List ℕ
trim_start [] = []
trim_start (c ∷ cs) = let rest = trim_start cs in if is_space c then rest else c ∷ cs

-- The white space at the end is where nothing else follows.
unfoldable pub trim_end : List ℕ → List ℕ
trim_end [] = []
trim_end (c ∷ cs) =
    let rest = trim_end cs in if is_space c && length rest == 0 then [] else c ∷ rest

unfoldable pub trim : List ℕ → List ℕ
unfolding trim_start trim_end
trim cs = trim_end (trim_start cs)

-- `replace(/<[^>]*>/g, '')`: from a `<` to the next `>`, if there is one. The flag says that a tag
-- is open.
unfoldable pub strip_tags : Bool → List ℕ → List ℕ
strip_tags inside [] = []
strip_tags true (c ∷ cs) = strip_tags (not (c == 62)) cs
strip_tags false (c ∷ cs) =
    let within = strip_tags true cs in
    let rest = strip_tags false cs in if c == 60 && any (λ d. d == 62) cs then within else c ∷ rest

abbrev pub is_control : ℕ → Bool
is_control c = leb c 31 || (c == 127)

abbrev pub is_angle : ℕ → Bool
is_angle c = (c == 60) || (c == 62)

abbrev pub max_title_len : ℕ
max_title_len = 255

-- `none` is null or undefined.
unfoldable pub sanitize_title : Option (List ℕ) → ℕ → List ℕ
unfolding strip_tags trim
sanitize_title none max_len = []
sanitize_title (some raw) max_len = take max_len (
    trim (filter (λ c. not (is_angle c)) (filter (λ c. not (is_control c)) (strip_tags false raw))))

-- '*', and n of them
unfoldable pub stars : ℕ → List ℕ
stars zero = []
stars (suc n) = 42 ∷ stars n

abbrev pub last_of : ℕ → List ℕ → ℕ
last_of c [] = c
last_of c (d ∷ ds) = last_of d ds

-- `String(userId)` is the argument.
unfoldable pub mask_user_id : List ℕ → List ℕ
unfolding stars
mask_user_id [] = 42 ∷ []
mask_user_id (c ∷ []) = 42 ∷ []
mask_user_id (c ∷ d ∷ []) = c ∷ 42 ∷ []
mask_user_id (c ∷ d ∷ ds) = c ∷ stars (length ds) ++ last_of d ds ∷ []

unfoldable pub mask_title : Option (List ℕ) → List ℕ
unfolding decimal
mask_title none = codes "∅"
mask_title (some []) = codes "∅"
mask_title (some (c ∷ cs)) = c ∷ codes "…(" ++ decimal (length (c ∷ cs)) ++ codes "자)"

unfoldable pub masked_task_ref : List ℕ → Option (List ℕ) → List ℕ
unfolding mask_user_id mask_title
masked_task_ref user title =
    codes "user=" ++ mask_user_id user ++ codes " task=\"" ++ mask_title title ++ codes "\""

-- ===== src/Template/Scan.antt =====
-- src/app.ts: `TEMPLATE_PATTERN`, the expression `/\{\{\s*([^}]+?)\s*\}\}/g`. From a `{{` it takes
-- the whole run of units that are no `}`, which must not be empty and must be followed by `}}`; the
-- captured text is trimmed by the code, so how the expression shares out white space does not matter.
use fearless.Base.{
  ℕ, zero, suc, ◌+◌, Option, none, some, Bool, Str, codes, [], ◌∷◌, ◌&&◌, ◌||◌, ◌==◌, leb,
  starts_with, if◌then◌else◌, length, ◌≡◌, refl, ◌++◌,
}
use mathlib.Core.List.{reverse}

-- The white space of `\s` and of `trim`.
unfoldable is_space : ℕ → Bool
is_space c =
    leb 9 c && leb c 13
    || (c == 32
        || (c == 160
            || (c == 0x1680
                || (leb 0x2000 c && leb c 0x200a
                    || (c == 0x2028
                        || (c == 0x2029
                            || (c == 0x202f || (c == 0x205f || (c == 0x3000 || c == 0xfeff)))))))))

unfoldable trim_start : Str → Str
unfolding is_space
trim_start [] = []
trim_start (c ∷ s) = if is_space c then trim_start s else c ∷ s

-- `s.trim()`
unfoldable pub trim : Str → Str
unfolding trim_start
trim s = reverse (trim_start (reverse (trim_start s)))

-- The run of units that are no `}`, and what follows it.
unfoldable token_run : Str → Str × Str
token_run [] = ([], [])
token_run (c ∷ s) = if c == b'}' then ([], c ∷ s) else (c ∷ (token_run s).0, (token_run s).1)

abbrev pub open_token : Str
open_token = codes "{{"

abbrev close_token : Str
close_token = codes "}}"

abbrev closed_run : Str × Str → Option Str
closed_run ([], rest) = none
closed_run (c ∷ run, rest) = if starts_with close_token rest then some (c ∷ run) else none

abbrev after_open : Str → Option Str
after_open (c ∷ d ∷ s) = closed_run (token_run s)
after_open _ = none

-- The text between the braces of a match that begins here.
unfoldable pub match_token : Str → Option Str
unfolding starts_with token_run
match_token s = if starts_with open_token s then after_open s else none

-- `input.replace(TEMPLATE_PATTERN, replacement)`. The number counts the units that the last match
-- covers still.
unfoldable pub replace_tokens : (Str → Str) → ℕ → Str → Str
unfolding match_token
replace_tokens replacement n [] = []
replace_tokens replacement (suc n) (c ∷ s) = replace_tokens replacement n s
replace_tokens replacement zero (c ∷ s) = elim (match_token (c ∷ s)) [
  | none ↦ c ∷ replace_tokens replacement zero s
  | some run ↦ replacement run ++ replace_tokens replacement (length run + 3) s
]

replace_runs :
    replace_tokens (λ run. codes "<" ++ trim run ++ codes ">") 0 (codes "a{{ b }}c{{}}{{d}")
    ≡ codes "a<b>c{{}}{{d}"
unfolding replace_tokens trim
replace_runs = refl

-- ===== src/Path.antt =====
-- src/path.ts: `normalizePath`, over UTF-16 code units.
mod Strip
pub mod Laws
use fearless.Base.{
  ℕ, zero, suc, ◌-◌, ◌≡◌, refl, Bool, true, false, Str, codes, str_eq, before, List, [], ◌∷◌, ◌||◌,
  ◌==◌, length, if◌then◌else◌,
}

-- `s.slice(0, n)`
unfoldable pub take : ℕ → Str → Str
take zero s = []
take (suc n) [] = []
take (suc n) (c ∷ s) = c ∷ take n s

-- `s.charCodeAt(i) === c`; past the end `charCodeAt` is NaN, which equals nothing.
unfoldable pub char_is : Str → ℕ → ℕ → Bool
char_is [] i c = false
char_is (d ∷ s) zero c = d == c
char_is (d ∷ s) (suc i) c = char_is s i c

-- `while (end > 1 && normalized.charCodeAt(end - 1) === 47) end -= 1`
pub trim_end : Str → ℕ → ℕ
trim_end s zero = 0
trim_end s (suc zero) = 1
trim_end s (suc (suc e)) =
    let shorter = trim_end s (suc e) in if char_is s (suc e) b'/' then shorter else suc (suc e)

abbrev root : Str
root = codes "/"

-- A leading slash is added where there is none.
with_slash : Str → Str
unfolding char_is
with_slash s = if char_is s 0 b'/' then s else b'/' ∷ s

-- The part of `normalizePath` behind the removal of the query, for a part that is not empty.
normalize_part : Str → Str
unfolding char_is trim_end with_slash take
normalize_part s =
    if char_is s (length s - 1) b'/'
    then (let t = with_slash s in take (trim_end t (length t)) t)
    else with_slash s

-- The last test, `normalized.length === 0`, is the empty case of `or_root`.
or_root : Str → Str
or_root [] = root
or_root (c ∷ s) = c ∷ s

unfoldable pub normalize_path : Str → Str
unfolding normalize_part or_root before str_eq
normalize_path path =
    if str_eq path [] || str_eq path root
    then root
    else let part = before b'?' path in
      if str_eq part [] then root else or_root (normalize_part part)

normalize_path_runs : normalize_path (codes "users/7//?a=1") ≡ codes "/users/7"
unfolding normalize_path
normalize_path_runs = refl

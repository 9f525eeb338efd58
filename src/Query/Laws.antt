-- ===== src/Query/Laws.antt =====
-- What the parsed query holds under a key.
use fearless.Base.{
  Option, none, some, Bool, true, false, Str, codes, str_eq, str_eq_iff, List, [], ◌∷◌, ◌++◌, get,
  get-put, ◌≡◌, refl, if◌then◌else◌, append_assoc, append-nil, map, Bool-cases, inl, inr,
}
use fearless.Query.{
  Element, value, inherited, QueryValue, single, several, QueryParams, after_own, add_entry,
  add_entries, is_inherited,
}

-- The values of a key, in the order of the entries.
unfoldable pub values_of : Str → List (Str × Str) → List Str
values_of key [] = []
values_of key ((k, v) ∷ entries) =
    let rest = values_of key entries in if str_eq k key then v ∷ rest else rest

-- Adding the values one by one to what is there.
abbrev add_values : Bool → Str → Option QueryValue → List Str → Option QueryValue
add_values b key o [] = o
add_values b key o (v ∷ vs) = add_values b key (some (after_own o b key v)) vs

get-add_entries :
    (key : Str) (entries : List (Str × Str)) (m : QueryParams)
    → get key (add_entries entries m)
      ≡ add_values (is_inherited key) key (get key m) (values_of key entries)
unfolding add_entries add_entry values_of
get-add_entries key [] m = refl
get-add_entries key ((k, v) ∷ entries) m = elim (Bool-cases (str_eq k key)) [
  | inl e ↦
      let same : k ≡ key = (str_eq_iff k key).0 e in
      rw (get-add_entries key entries (add_entry k v m), get-put, e, same)
  | inr e ↦ rw (get-add_entries key entries (add_entry k v m), get-put, e)
]

-- What `query[key]` is to be: nothing, the one value, or the list of the values.
abbrev collected : List Str → Option QueryValue
collected [] = none
collected (v ∷ []) = some (single v)
collected (v ∷ w ∷ vs) = some (several (map value (v ∷ w ∷ vs)))

add_values-several :
    (b : Bool) (key : Str) (es : List Element) (vs : List Str)
    → add_values b key (some (several es)) vs ≡ some (several (es ++ map value vs))
add_values-several b key es [] = rw append-nil
add_values-several b key es (v ∷ vs) =
    rw (add_values-several b key (es ++ value v ∷ []) vs, append_assoc)

add_values-collected : (key : Str) (vs : List Str) → add_values false key none vs ≡ collected vs
add_values-collected key [] = refl
add_values-collected key (v ∷ []) = refl
add_values-collected key (v ∷ w ∷ vs) = add_values-several false key _ vs

-- In a parsed query a key that is no property of `Object.prototype` has its one value, or the list of
-- all its values in order, or is missing, if `__proto__` is no key of the entries.
pub get-add_entries-collected :
    (key : Str) (entries : List (Str × Str))
    → values_of (codes "__proto__") entries ≡ []
    → is_inherited key ≡ false
    → get key (add_entries entries []) ≡ collected (values_of key entries)
get-add_entries-collected key entries _ h =
    rw (get-add_entries key entries [], h)
      (unfold get in add_values-collected key (values_of key entries))

-- A key that is a property of `Object.prototype` gives, where it occurs at all, a list that begins with
-- the inherited property and goes on with its values, if `__proto__` is no key of the entries.
pub get-add_entries_inherited :
    (key v : Str) (entries : List (Str × Str)) (vs : List Str)
    → values_of (codes "__proto__") entries ≡ []
    → is_inherited key ≡ true
    → values_of key entries ≡ v ∷ vs
    → get key (add_entries entries []) ≡ some (several (inherited key ∷ map value (v ∷ vs)))
get-add_entries_inherited key v entries vs _ h e =
    rw (get-add_entries key entries [], h, e) (unfold get in add_values-several true key _ vs)

-- ===== src/Types/Acl.antt =====
-- `normalize_acl` of src/types.rs: the tags sorted, and each kept once.
use Prim.Native.String.{compare}
use text.Mathlib.Text.{is_le}
use orpheusgraph.Prelude.{Bool, String, List, [], ◌∷◌, ◌==◌, string_eq, if◌then◌else◌}

-- `<=` of `String`: byte by byte.
abbrev pub str_leb : String → String → Bool
str_leb s t = is_le (compare s t)

pub insert_sorted : String → List String → List String
insert_sorted t [] = t ∷ []
insert_sorted t (s ∷ ts) = if str_leb t s then t ∷ s ∷ ts else s ∷ insert_sorted t ts

-- `sort` of the standard library. Texts that compare equal are equal, so stability shows nowhere.
pub sort : List String → List String
unfolding insert_sorted
sort [] = []
sort (t ∷ ts) = insert_sorted t (sort ts)

-- `dedup` of the standard library: of neighbours that are equal the first is kept.
pub dedup : List String → List String
dedup [] = []
dedup (t ∷ []) = t ∷ []
dedup (t ∷ s ∷ ts) = let rest = dedup (s ∷ ts) in if t == s then rest else t ∷ rest

unfoldable pub normalize_acl : List String → List String
unfolding sort dedup
normalize_acl acl = dedup (sort acl)

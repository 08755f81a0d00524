-- ===== src/Extern/Match.antt =====
-- extern/expr.go: comparison of lists of names as sets.
mod Tests
use rips.Prelude.{
  Bool, true, false, ◌&&◌, if◌then◌else◌, str_eq, str_eq_iff, String, List, [], ◌∷◌, all, All, In,
  contains, contains_iff, ◌≡◌, refl, ◌↔◌, ◌≢◌, inl, inr, arith, Bool-cases,
}

-- The decoder may leave an empty list as a list of one empty text.
unfoldable pub is_empty : List String → Bool
is_empty [] = true
is_empty (s ∷ []) = str_eq s ""
is_empty (s ∷ t ∷ rest) = false

-- `amap[b]` for the set `amap` of the members of `names`.
abbrev in_set : List String → String → Bool
in_set names b = contains names b

unfoldable pub match_subset : List String → List String → Bool
unfolding is_empty
match_subset names subset = if is_empty subset then true else all (in_set names) subset

unfoldable pub match_all : List String → List String → Bool
unfolding match_subset
match_all names others = match_subset names others && match_subset others names

-- Every member of `xs` is a member of `ys`.
abbrev pub Subset : List String → List String → Type 0
Subset xs ys = (a : String) → In a xs → In a ys

-- No name is the empty text.
abbrev pub Named : List String → Type 0
Named xs = All (λ s. s ≢ "") xs

all-contains_sound :
    (ys xs : List String) → all (in_set ys) xs ≡ true → (a : String) → In a xs → In a ys
all-contains_sound ys [] h a m = absurd m
all-contains_sound ys (x ∷ xs) h a (inl e) = ground (arith, contains_iff ys x, contains_iff ys a)
all-contains_sound ys (x ∷ xs) h a (inr m) = all-contains_sound ys xs (ground arith) a m

all-contains_complete : (ys xs : List String) → Subset xs ys → all (in_set ys) xs ≡ true
all-contains_complete ys [] h = refl
all-contains_complete ys (x ∷ xs) h = ground (
  arith,
  (contains_iff ys x).1 (h x (inl refl)),
  all-contains_complete ys xs (λ a m. h a (inr m)),
)

is_empty-Named : (xs : List String) → Named xs → is_empty xs ≡ true → xs ≡ []
unfolding is_empty
is_empty-Named [] n h = refl
is_empty-Named (s ∷ []) n h = absurd (n.0 ((str_eq_iff s "").0 h))
is_empty-Named (s ∷ t ∷ rest) n h = cc

match_subset_sound :
    (names subset : List String)
    → Named subset
    → match_subset names subset ≡ true
    → Subset subset names
unfolding match_subset
match_subset_sound names subset n h = elim (Bool-cases (is_empty subset)) [
  | inl e ↦ rw (is_empty-Named subset n e) (λ a m. absurd m)
  | inr e ↦ all-contains_sound names subset (rw e at h)
]

match_subset_complete :
    (names subset : List String) → Subset subset names → match_subset names subset ≡ true
unfolding match_subset
match_subset_complete names subset h = ground (arith, all-contains_complete names subset h)

-- On names that are not empty texts `matchSubset` is true exactly if every name of the second list
-- stands in the first.
pub match_subset_iff :
    (names subset : List String)
    → Named subset
    → (match_subset names subset ≡ true) ↔ Subset subset names
match_subset_iff names subset n =
    (match_subset_sound names subset n, match_subset_complete names subset)

-- On names that are not empty texts `matchAll` is true exactly if the two lists have the same
-- members: order and repetition do not count.
pub match_all_iff :
    (names others : List String)
    → Named names
    → Named others
    → (match_all names others ≡ true) ↔ ((a : String) → In a names ↔ In a others)
unfolding match_all
match_all_iff names others n o = (
  λ h a. (
    match_subset_sound others names n (ground arith) a,
    match_subset_sound names others o (ground arith) a,
  ),
  λ same. ground (
    arith,
    match_subset_complete names others (λ a. (same a).1),
    match_subset_complete others names (λ a. (same a).0),
  ),
)

-- ===== src/Ids/Separators.antt =====
-- The methods of Python strings by which ids are cut: `count`, `split`, `replace`, `startswith`.
use smalt_mcp.Prelude.{
  inl, inr, Bool-cases, ◌∙◌, ℕ, suc, Bool, false, ◌&&◌, ◌≡◌, ◌≢◌, refl, ap, List, [], ◌∷◌, ◌++◌,
  arith, ◌==◌, if◌then◌else◌, Text, All,
}

-- `value.count("::")`, which counts occurrences that do not overlap.
unfoldable pub count_sep : Text → ℕ
count_sep [] = 0
count_sep (c ∷ []) = 0
count_sep (c ∷ d ∷ rest) =
    let after = count_sep rest in
    let next = count_sep (d ∷ rest) in if c == b':' && d == b':' then suc after else next

-- `value.split("::", 1)` where the separator occurs; all before it where it does not.
unfoldable pub split_sep : Text → Text × Text
split_sep [] = ([], [])
split_sep (c ∷ []) = (c ∷ [], [])
split_sep (c ∷ d ∷ rest) =
    let next = split_sep (d ∷ rest) in
    if c == b':' && d == b':' then ([], rest) else (c ∷ next.0, next.1)

-- `value.replace("::", "/")`
unfoldable pub replace_sep : Text → Text
replace_sep [] = []
replace_sep (c ∷ []) = c ∷ []
replace_sep (c ∷ d ∷ rest) =
    let after = replace_sep rest in
    let next = replace_sep (d ∷ rest) in if c == b':' && d == b':' then b'/' ∷ after else c ∷ next

abbrev pub prepend : ℕ → List Text → List Text
prepend c [] = (c ∷ []) ∷ []
prepend c (part ∷ parts) = (c ∷ part) ∷ parts

-- `value.split(c)`: one part more than there are separators.
unfoldable pub split_on : ℕ → Text → List Text
split_on s [] = [] ∷ []
split_on s (c ∷ rest) =
    let parts = split_on s rest in if c == s then [] ∷ parts else prepend c parts

-- `value.startswith("/")`
abbrev pub starts_with_slash : Text → Bool
starts_with_slash [] = false
starts_with_slash (c ∷ _) = c == b'/'

-- `s.join(parts)`, the first part and then each other behind its separator.
abbrev pub join_rest : ℕ → List Text → Text
join_rest s [] = []
join_rest s (part ∷ parts) = s ∷ (part ++ join_rest s parts)

abbrev pub join_with : ℕ → List Text → Text
join_with s [] = []
join_with s (part ∷ parts) = part ++ join_rest s parts

pub split_on-cons :
    (s : ℕ) (t : Text) → (part : Text) × (parts : List Text) × (split_on s t ≡ part ∷ parts)
unfolding split_on
split_on-cons s [] = ([], [], refl)
split_on-cons s (c ∷ t) = elim (Bool-cases (c == s)) [
  | inl e ↦ ([], split_on s t, rw e)
  | inr e ↦ let (part, parts, q) = split_on-cons s t in (c ∷ part, parts, rw (e, q))
]

join-prepend : (s c : ℕ) (parts : List Text) → join_with s (prepend c parts) ≡ c ∷ join_with s parts
join-prepend s c [] = refl
join-prepend s c (part ∷ parts) = refl

pub join-split : (s : ℕ) (t : Text) → join_with s (split_on s t) ≡ t
unfolding split_on
join-split s [] = refl
join-split s (c ∷ t) = elim (Bool-cases (c == s)) [
  | inl e ↦ let (part, parts, q) = split_on-cons s t in rw e (ground (arith, q, join-split s t))
  | inr e ↦ rw e (join-prepend s c (split_on s t) ∙ ap (λ r. c ∷ r) (join-split s t))
]

-- The two parts around the first separator make up the id again.
pub split_sep-join :
    (v : Text) → count_sep v ≢ 0 → (split_sep v).0 ++ b':' ∷ b':' ∷ (split_sep v).1 ≡ v
unfolding split_sep count_sep
split_sep-join [] h = absurd (h refl)
split_sep-join (c ∷ []) h = absurd (h refl)
split_sep-join (c ∷ d ∷ rest) h = elim (Bool-cases (c == b':' && d == b':')) [
  | inl e ↦ rw e (ground arith)
  | inr e ↦ rw e (ap (λ r. c ∷ r) (split_sep-join (d ∷ rest) (rw e at h)))
]

-- Where there is no separator, nothing is replaced.
pub replace_sep_none : (v : Text) → count_sep v ≡ 0 → replace_sep v ≡ v
unfolding replace_sep count_sep
replace_sep_none [] h = refl
replace_sep_none (c ∷ []) h = refl
replace_sep_none (c ∷ d ∷ rest) h = elim (Bool-cases (c == b':' && d == b':')) [
  | inl e ↦ ground arith
  | inr e ↦ rw e (ap (λ r. c ∷ r) (replace_sep_none (d ∷ rest) (rw e at h)))
]

-- At a single separator the replacement puts one slash between the two parts.
pub replace_sep_one :
    (v : Text) → count_sep v ≡ 1 → replace_sep v ≡ (split_sep v).0 ++ b'/' ∷ (split_sep v).1
unfolding replace_sep split_sep count_sep
replace_sep_one [] h = absurd (omega arith)
replace_sep_one (c ∷ []) h = absurd (omega arith)
replace_sep_one (c ∷ d ∷ rest) h = elim (Bool-cases (c == b':' && d == b':')) [
  | inl e ↦ rw e (ap (λ r. b'/' ∷ r) (replace_sep_none rest (ground arith)))
  | inr e ↦ rw e (ap (λ r. c ∷ r) (replace_sep_one (d ∷ rest) (rw e at h)))
]

-- A text without the separator is one part.
pub split_on_none : (s : ℕ) (t : Text) → All (λ c. c ≢ s) t → split_on s t ≡ t ∷ []
unfolding split_on
split_on_none s [] h = refl
split_on_none s (c ∷ t) h = ground (arith, split_on_none s t h.1, h.0)

-- A separator behind a text without one ends the first part.
pub split_on-append :
    (s : ℕ) (a b : Text) → All (λ c. c ≢ s) a → split_on s (a ++ s ∷ b) ≡ a ∷ split_on s b
unfolding split_on
split_on-append s [] b h = ground arith
split_on-append s (c ∷ a) b h = ground (arith, split_on-append s a b h.1, h.0)

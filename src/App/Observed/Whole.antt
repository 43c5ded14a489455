-- ===== src/App/Observed/Whole.antt =====
-- A snapshot of the observability fields shows whole runs.
use mathlib.Core.Option.{some-injective}
use smalt_mcp.Prelude.{
  ℕ, ◌≡◌, refl, ap, subst, ◌∙◌, Option, none, some, List, [], ◌∷◌, ◌++◌, All, ◌==◌, inl, inr,
  Bool-cases,
}
use smalt_mcp.App.Observed.{
  Run, Observed, Field, all_fields, assign, copy, Section, writing, taking, Board, Access,
  begin_record, begin_status, access_field, leave_section, nothing_observed, new_board, go_on,
  access, after_access, run_accesses,
}

-- The fields after one run, and after some runs, the last one first.
abbrev assign_all : List Field → Run → Observed → Observed
assign_all [] r o = o
assign_all (f ∷ fs) r o = assign_all fs r (assign f r o)

abbrev pub replay : List Run → Observed
replay [] = nothing_observed
replay (r ∷ runs) = assign_all all_fields r (replay runs)

abbrev copy_all : List Field → Observed → Observed → Observed
copy_all [] o taken = taken
copy_all (f ∷ fs) o taken = copy_all fs o (copy f o taken)

-- The fields as they were after the runs up to some run.
pub record IsWhole (runs : List Run) (snapshot : Observed) : Type 0 where
  pub later : List Run
  pub earlier : List Run
  pub splits : runs ≡ later ++ earlier
  pub shows : snapshot ≡ replay earlier

-- What holds of the fields while a thread is at work, or none is.
abbrev FitsIn : Section → List Run → Observed → Type 0
FitsIn (writing fs r) runs o = assign_all fs r o ≡ replay (r ∷ runs)
FitsIn (taking fs taken) runs o = (o ≡ replay runs) × (copy_all fs o taken ≡ o)

abbrev Fits : Option (ℕ × Section) → List Run → Observed → Type 0
Fits none runs o = o ≡ replay runs
Fits (some (i, todo)) runs o = FitsIn todo runs o

record IsSound (b : Board) : Type 0 where
  fits : Fits b.section b.runs b.observed
  whole : All (IsWhole b.runs) b.snapshots

IsWhole-later : (r : Run) (runs : List Run) (o : Observed) → IsWhole runs o → IsWhole (r ∷ runs) o
IsWhole-later r runs o h = record {
  later = r ∷ h.later;
  earlier = h.earlier;
  splits = ap (λ rs. r ∷ rs) h.splits;
  shows = h.shows;
}

later-All :
    (r : Run) (runs : List Run) (os : List Observed)
    → All (IsWhole runs) os
    → All (IsWhole (r ∷ runs)) os
later-All r runs [] h = tt
later-All r runs (o ∷ os) h = (IsWhole-later r runs o h.0, later-All r runs os h.1)

go_on-IsSound :
    (i : ℕ) (todo : Section) (a : Access) (b b' : Board)
    → FitsIn todo b.runs b.observed
    → All (IsWhole b.runs) b.snapshots
    → go_on i todo a b ≡ some b'
    → IsSound b'
go_on-IsSound i (writing (f ∷ fs) r) access_field b b' h k q =
    subst IsSound (some-injective _ _ q) (record { fits = h; whole = k })
go_on-IsSound i (writing [] r) leave_section b b' h k q =
    subst IsSound (some-injective _ _ q)
      (record { fits = h; whole = later-All r b.runs b.snapshots k })
go_on-IsSound i (taking (f ∷ fs) taken) access_field b b' h k q =
    subst IsSound (some-injective _ _ q) (record { fits = h; whole = k })
go_on-IsSound i (taking [] taken) leave_section b b' h k q =
    subst IsSound (some-injective _ _ q) (record {
      fits = h.0;
      whole = (record { later = []; earlier = b.runs; splits = refl; shows = h.1 ∙ h.0 }, k);
    })
go_on-IsSound i _ _ b b' h k q = cc

access-IsSound :
    (i : ℕ) (section : Option (ℕ × Section)) (a : Access) (b b' : Board)
    → Fits section b.runs b.observed
    → All (IsWhole b.runs) b.snapshots
    → access i section a b ≡ some b'
    → IsSound b'
access-IsSound i none (begin_record r) b b' h k q =
    subst IsSound (some-injective _ _ q)
      (record { fits = ap (assign_all all_fields r) h; whole = k })
access-IsSound i none begin_status b b' h k q =
    subst IsSound (some-injective _ _ q) (record { fits = (h, refl); whole = k })
access-IsSound i none _ b b' h k q = cc
access-IsSound i (some (j, todo)) a b b' h k q = elim (Bool-cases (i == j)) [
  | inl e ↦ go_on-IsSound i todo a b b' h k (rw e at q)
  | inr e ↦ let no : none ≡ some b' = rw e at q in cc
]

after_access-IsSound :
    (o : Option Board) (f : Board → Option Board) (b' : Board)
    → ((b : Board) → o ≡ some b → IsSound b)
    → ((b : Board) → IsSound b → f b ≡ some b' → IsSound b')
    → after_access o f ≡ some b'
    → IsSound b'
after_access-IsSound none f b' h k q = cc
after_access-IsSound (some b) f b' h k q = k b (h b refl) q

run_accesses-IsSound :
    (accesses : List (ℕ × Access)) (b b' : Board)
    → IsSound b
    → run_accesses accesses b ≡ some b'
    → IsSound b'
unfolding run_accesses
run_accesses-IsSound [] b b' h q = subst IsSound (some-injective _ _ q) h
run_accesses-IsSound ((i, a) ∷ rest) b b' h q =
    after_access-IsSound (access i b.section a b) (run_accesses rest) b'
      (λ c e. access-IsSound i b.section a b c h.fits h.whole e)
      (λ c k e. run_accesses-IsSound rest c b' k e) q

-- After any interleaving of indexer runs that are recorded with statuses that are asked for, every
-- snapshot shows the fields as they were after a run, with all of that run and of the runs before.
pub run_accesses-IsWhole :
    (accesses : List (ℕ × Access)) (b : Board)
    → run_accesses accesses new_board ≡ some b
    → All (IsWhole b.runs) b.snapshots
run_accesses-IsWhole accesses b q =
    (run_accesses-IsSound accesses new_board b (record { fits = refl; whole = tt }) q).whole

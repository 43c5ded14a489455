-- ===== src/Reads/Rows.antt =====
-- What the lookups of `read_page` say of the rows of the pages table.
use mathlib.Core.Option.{some-injective}
use smalt_mcp.Prelude.{
  ℕ, ◌≡◌, refl, ap, ◌∙◌, sym, subst, arith, Bool, true, false, not, ◌&&◌, none, some, List, [], ◌∷◌,
  any, length, leb, Text, text_eq, member, inl, inr, Bool-cases,
}
use smalt_mcp.Corpus.{External, World, PageRow}
use smalt_mcp.Reads.Aliases.{first_row, find_pages_by_alias, fetch_page_row}

module _ {A : Type 0} (p : A → Bool) where
  pub any-neither : (xs : List A) → any (λ a. not (p a) && p a) xs ≡ false
  any-neither [] = refl
  any-neither (a ∷ xs) = ground (arith, any-neither xs)

  pub any-both : (q : A → Bool) (xs : List A) → any (λ a. q a && p a) xs ≡ true → any q xs ≡ true
  any-both q [] h = h
  any-both q (a ∷ xs) h = ground (arith, h, any-both q xs)

module _ (x : External) (w : World x) where
  -- The rows of the pages table.
  abbrev pub rows_of : List (PageRow x.Rest)
  rows_of = x.pages.scan w.pages

  -- A row of the table, as far as tests of rows tell.
  abbrev pub InTable : PageRow x.Rest → Type 0
  InTable r = (q : PageRow x.Rest → Bool) → q r ≡ true → any q rows_of ≡ true

  -- A selected row passes the filter.
  selected-passes :
      (p : PageRow x.Rest → Bool) (n : ℕ) (r : PageRow x.Rest) (rows : List (PageRow x.Rest))
      → x.pages.select p n w.pages ≡ r ∷ rows
      → p r ≡ true
  selected-passes p n r rows found = elim (Bool-cases (p r)) [
    | inl e ↦ e
    | inr e ↦
        let other : any (λ s. not (p s)) (r ∷ rows) ≡ true = ground (arith, e) in
        let sound =
          x.pages.select_sound p n w.pages (λ s. not (p s))
            (ap (any (λ s. not (p s))) found ∙ other) in
        let no : false ≡ true = sym (any-neither p rows_of) ∙ sound in cc
  ]

  selected-InTable :
      (p : PageRow x.Rest → Bool) (n : ℕ) (r : PageRow x.Rest) (rows : List (PageRow x.Rest))
      → x.pages.select p n w.pages ≡ r ∷ rows
      → InTable r
  selected-InTable p n r rows found q h =
      let here : any q (r ∷ rows) ≡ true = ground (arith, h) in
      any-both p q rows_of (x.pages.select_sound p n w.pages q (ap (any q) found ∙ here))

  first_row-some :
      (id : Text) (r : PageRow x.Rest) (rows : List (PageRow x.Rest))
      → x.pages.select (λ s. text_eq s.id id) 1 w.pages ≡ rows
      → first_row x rows ≡ some r
      → (text_eq r.id id ≡ true) × InTable r
  first_row-some id r [] found h = cc
  first_row-some id r (s ∷ rows) found h =
      subst (λ z. (text_eq z.id id ≡ true) × InTable z) (some-injective _ _ h)
        (
          selected-passes (λ z. text_eq z.id id) 1 s rows found,
          selected-InTable (λ z. text_eq z.id id) 1 s rows found,
        )

  first_row-none :
      (id : Text) (rows : List (PageRow x.Rest))
      → x.pages.select (λ s. text_eq s.id id) 1 w.pages ≡ rows
      → first_row x rows ≡ none
      → any (λ r. text_eq r.id id) rows_of ≡ false
  first_row-none id [] found h =
      sym (
        x.pages.select_all (λ r. text_eq r.id id) 1 w.pages (λ r. true)
          (ap (λ rows. leb 1 (length rows)) found))
      ∙ ap (any (λ r. true)) found
  first_row-none id (s ∷ rows) found h = cc

  -- The row that `_fetch_page_row` returns has the id and is in the table.
  pub fetch_page_row-some :
      (id : Text) (r : PageRow x.Rest)
      → fetch_page_row x w id ≡ some r
      → (text_eq r.id id ≡ true) × InTable r
  unfolding fetch_page_row
  fetch_page_row-some id r h = first_row-some id r _ refl h

  -- Where it returns none, no row has the id.
  pub fetch_page_row-none :
      (id : Text) → fetch_page_row x w id ≡ none → any (λ r. text_eq r.id id) rows_of ≡ false
  unfolding fetch_page_row
  fetch_page_row-none id h = first_row-none id _ refl h

  -- A single match of `_find_pages_by_alias` is every row that has the alias.
  pub find_pages_by_alias-one :
      (alias : Text) (m : PageRow x.Rest)
      → find_pages_by_alias x w alias ≡ m ∷ []
      → (q : PageRow x.Rest → Bool) → any (λ r. q r && member alias r.aliases) rows_of ≡ q m
  unfolding find_pages_by_alias
  find_pages_by_alias-one alias m found q =
      let last : any q (m ∷ []) ≡ q m = ground arith in
      sym (
        x.pages.select_all (λ r. member alias r.aliases) 10000 w.pages q
          (ap (λ rows. leb 10000 (length rows)) found))
      ∙ (ap (any q) found ∙ last)

  pub find_pages_by_alias-has :
      (alias : Text) (m : PageRow x.Rest)
      → find_pages_by_alias x w alias ≡ m ∷ []
      → member alias m.aliases ≡ true
  unfolding find_pages_by_alias
  find_pages_by_alias-has alias m found =
      selected-passes (λ r. member alias r.aliases) 10000 m [] found

  pub find_pages_by_alias-none :
      (alias : Text)
      → find_pages_by_alias x w alias ≡ []
      → any (λ r. member alias r.aliases) rows_of ≡ false
  unfolding find_pages_by_alias
  find_pages_by_alias-none alias found =
      sym (
        x.pages.select_all (λ r. member alias r.aliases) 10000 w.pages (λ r. true)
          (ap (λ rows. leb 10000 (length rows)) found))
      ∙ ap (any (λ r. true)) found

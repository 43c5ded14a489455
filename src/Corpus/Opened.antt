-- ===== src/Corpus/Opened.antt =====
-- Actions that at most open the database: `connect` of src/smalt_mcp/storage/lance.py makes the
-- directory `index/lance`.
use smalt_mcp.Prelude.{◌≡◌, refl, ap, ◌∙◌, arith, Bool}
use smalt_mcp.Corpus.{External, World}
use smalt_mcp.Corpus.Actions.{Outcome, settled}
use smalt_mcp.Corpus.Respects.{IsPreorder, Respects}
use smalt_mcp.Corpus.Pages.{ensure_initialized}

module _ (x : External) where
  -- Nothing but the directory of the database is new.
  abbrev pub SameWorld : World x → World x → Type 0
  SameWorld w w' = w' ≡ record w { lance_dir = w'.lance_dir }

  abbrev pub opened_as : Bool → World x → World x
  opened_as there w = record w { lance_dir = there }

  pub SameWorld-IsPreorder : IsPreorder SameWorld
  SameWorld-IsPreorder = record {
    reflexive = λ w. refl;
    transitive = λ u v w p q. q ∙ ap (opened_as w.lance_dir) p;
  }

  pub ensure_initialized-SameWorld : Respects SameWorld (ensure_initialized x)
  unfolding ensure_initialized
  ensure_initialized-SameWorld = record { at = λ w. ground arith }

  pub settled-SameWorld : {A : Type 0} (o : Outcome A) → Respects SameWorld (settled o)
  settled-SameWorld o = record { at = λ w. refl }

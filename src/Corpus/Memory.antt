-- ===== src/Corpus/Memory.antt =====
-- Tables and files in memory: an instance of what the program takes from other packages.
use smalt_mcp.Prelude.{
  ℕ, zero, suc, leb, ◌+◌, ◌≡◌, refl, ap, sym, ◌∙◌, Bool, false, not, ◌&&◌, ◌||◌, Option, some, List,
  [], ◌∷◌, ◌++◌, any, any-append, any-keep, any-take, keep, take, map, length, arith, Text, codes,
  text_eq,
}
use smalt_mcp.Schema.{Frontmatter, Claim}
use smalt_mcp.Corpus.Tables.{Table}
use smalt_mcp.Corpus.{External}

module _ {Row : Type 0} where
  pub take-short : (n : ℕ) (t : List Row) → leb n (length (take n t)) ≡ false → take n t ≡ t
  take-short zero t h = ground (arith, h)
  take-short (suc n) [] h = refl
  take-short (suc n) (r ∷ t) h = ap (λ l. r ∷ l) (take-short n t (ground (arith, h)))

  -- The key of `r` is among the keys of `rows`.
  abbrev pub replaced : (Row → Text) → List Row → Row → Bool
  replaced key rows r = any (λ s. text_eq (key s) (key r)) rows

  abbrev pub memory_table : Table Row
  memory_table = record {
    Store = List Row;
    empty = [];
    scan-empty = refl;
    scan = λ t. t;
    select = λ p n t. take n (keep p t);
    count = λ p t. length (keep p t);
    delete = λ p t. keep (λ r. not (p r)) t;
    add = λ rows t. t ++ rows;
    merge = λ key rows t. keep (λ r. not (replaced key rows r)) t ++ rows;
    select_sound = λ p n t q h. sym (any-keep p q t) ∙ any-take n q (keep p t) h;
    select_all = λ p n t q h. ap (any q) (take-short n (keep p t) h) ∙ any-keep p q t;
    any-delete = λ p t q. any-keep (λ r. not (p r)) q t;
    any-add = λ rows t q. any-append q t rows;
    any-merge = λ key rows t q.
        any-append q (keep (λ r. not (replaced key rows r)) t) rows
        ∙ ap (λ b. b || any q rows) (any-keep (λ r. not (replaced key rows r)) q t);
  }

-- A file is the page and the body that were written to it.
abbrev pub memory : External
memory = record {
  Rest = Unit {0};
  Content = Frontmatter (Unit {0}) × Text;
  Raw = Option (Frontmatter (Unit {0}));
  RawClaim = Option Claim;
  Vector = Unit {0};
  content_eq = λ a b. text_eq a.0.id b.0.id && text_eq a.1 b.1;
  view_page = λ raw. raw;
  view_claim = λ raw. raw;
  load_page = λ content. some content;
  dump_page = λ fm body. (fm, body);
  index_rest = λ flag. tt;
  strip = λ body. body;
  hash_bytes = λ content. content.0.title ++ content.1;
  embed = λ bodies. map (λ body. tt) bodies;
  model_version = codes "none";
  suffix = λ n. codes "suffix" ++ (97 + n) ∷ [];
  pages = memory_table;
  embeddings = memory_table;
  links = memory_table;
  claims = memory_table;
  load-dump = λ fm body. refl;
}

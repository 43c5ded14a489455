-- ===== src/Tools/Careful.antt =====
-- Actions that write nothing before they end with an error of their own.
pub mod Links
pub mod Claims
pub mod Pages
use smalt_mcp.Prelude.{
  ℕ, ◌≡◌, ◌≢◌, refl, ◌∙◌, inl, inr, Bool-cases, arith, Bool, true, false, Option, none, some,
  if◌then◌else◌, Text,
}
use smalt_mcp.Storage.Paths.{FilePath}
use smalt_mcp.Corpus.{External, World, Page, Do, IndexResult}
use smalt_mcp.Corpus.Actions.{
  Action, Outcome, done, fail, settled, Failure, tool_error, uuid_collision, uuid_collision_at,
  claim_lost_at, ◌>>=◌, pure, stop, gets, or_stop, stop_if, continue,
}
use smalt_mcp.Corpus.Respects.{
  IsPreorder, Respects, Respects-pure, Respects-stop, Respects-gets, Respects-or_stop, Respects-if,
  Respects-bind, Respects-stop_if, FailsBy, FailsBy-bind, FailsBy-pure,
}
use smalt_mcp.Tools.Links.{locate_or_stop, parse_or_raise}
use smalt_mcp.Corpus.Pages.{ParsedPage, ensure_initialized, with_mutex, serialize_and_write_page}
use smalt_mcp.Indexer.Run.{run_indexer}
use smalt_mcp.Indexer.Effects.{run_indexer-Raises}

-- The errors that a handler can end with after a write: an exception, a collision of ids, or a claim
-- that an earlier entry of a batch took away.
abbrev pub may_follow_write : Failure → Bool
may_follow_write tool_error = true
may_follow_write (uuid_collision _) = true
may_follow_write (uuid_collision_at _ _) = true
may_follow_write (claim_lost_at _ _ _) = true
may_follow_write _ = false

-- The files and the tables are as they were.
pub record SameCorpus (x : External) (w w' : World x) : Type 0 where
  pub same_files : w'.files ≡ w.files
  pub same_pages : w'.pages ≡ w.pages
  pub same_embeddings : w'.embeddings ≡ w.embeddings
  pub same_links : w'.links ≡ w.links
  pub same_claims : w'.claims ≡ w.claims

module _ (x : External) where
  pub SameCorpus-refl : (w : World x) → SameCorpus x w w
  SameCorpus-refl w = record {
    same_files = refl;
    same_pages = refl;
    same_embeddings = refl;
    same_links = refl;
    same_claims = refl;
  }

  pub SameCorpus-IsPreorder : IsPreorder (SameCorpus x)
  SameCorpus-IsPreorder = record {
    reflexive = SameCorpus-refl;
    transitive = λ u v w p q. record {
      same_files = q.same_files ∙ p.same_files;
      same_pages = q.same_pages ∙ p.same_pages;
      same_embeddings = q.same_embeddings ∙ p.same_embeddings;
      same_links = q.same_links ∙ p.same_links;
      same_claims = q.same_claims ∙ p.same_claims;
    };
  }

  -- It changes neither files nor tables.
  abbrev pub ReadOnly : {A : Type 0} → Do x A → Type 0
  ReadOnly m = Respects (SameCorpus x) m

  -- It fails only in the ways that a write can come before.
  abbrev pub FailsLate : {A : Type 0} → Do x A → Type 0
  FailsLate m = FailsBy (λ e. may_follow_write e ≡ true) m

  pub record Careful {A : Type 0} (m : Do x A) : Type 0 where
    pub at :
        (w : World x) (e : Failure)
        → (m w).0 ≡ fail e
        → may_follow_write e ≡ false
        → SameCorpus x w (m w).1

module _ (x : External) {A : Type 0} where
  pub Careful-read : (m : Do x A) → ReadOnly x m → Careful x m
  Careful-read m h = record { at = λ w e q c. h.at w }

  pub Careful-late : (m : Do x A) → FailsLate x m → Careful x m
  Careful-late m h = record { at = λ w e q c. cc (h.at w e q) }

  pub Careful-if :
      (b : Bool) (m n : Do x A) → Careful x m → Careful x n → Careful x (if b then m else n)
  Careful-if true m n h k = h
  Careful-if false m n h k = k

  pub Careful-stop : (e : Failure) → Careful x (stop {A = A} e)
  Careful-stop e = Careful-read _ (Respects-stop (SameCorpus-IsPreorder x) e)

  pub Careful-pure : (a : A) → Careful x (pure a)
  Careful-pure a = Careful-read _ (Respects-pure (SameCorpus-IsPreorder x) a)

  pub Careful-with_mutex :
      (name : Text) (m : Do x A) → Careful x m → Careful x (with_mutex x name m)
  unfolding with_mutex
  Careful-with_mutex name m h = record {
    at = λ w e q c. record {
      same_files = (h.at _ e q c).same_files;
      same_pages = (h.at _ e q c).same_pages;
      same_embeddings = (h.at _ e q c).same_embeddings;
      same_links = (h.at _ e q c).same_links;
      same_claims = (h.at _ e q c).same_claims;
    };
  }

module _ (x : External) where
  ensure_initialized-ReadOnly : ReadOnly x (ensure_initialized x)
  unfolding ensure_initialized
  ensure_initialized-ReadOnly = record { at = λ w. ground (arith, SameCorpus-refl x w) }

  pub run_indexer-FailsLate : FailsLate x (run_indexer x)
  run_indexer-FailsLate = record { at = λ w e q. rw ((run_indexer-Raises x).at w e q) }

  pub FailsLate-serialize :
      (path : FilePath) (page : Page x) (body : Text)
      → FailsLate x (serialize_and_write_page x path page body)
  unfolding serialize_and_write_page
  FailsLate-serialize path page body = record { at = λ w e q. cc }

  locate_or_stop-ReadOnly : (id : Text) → ReadOnly x (locate_or_stop x id)
  locate_or_stop-ReadOnly id =
      Respects-bind (SameCorpus-IsPreorder x) _ _ (Respects-gets (SameCorpus-IsPreorder x) _)
        λ p. Respects-or_stop (SameCorpus-IsPreorder x) p _

  parse_or_raise-ReadOnly : (path : FilePath) → ReadOnly x (parse_or_raise x path)
  parse_or_raise-ReadOnly path =
      Respects-bind (SameCorpus-IsPreorder x) _ _ (Respects-gets (SameCorpus-IsPreorder x) _)
        λ p. Respects-or_stop (SameCorpus-IsPreorder x) p _

module _ (x : External) {A B : Type 0} where
  Careful-continue :
      (u v : World x) (r : Outcome A) (f : A → Do x B)
      → SameCorpus x u v
      → ((a : A) → Careful x (f a))
      → (e : Failure) → (continue r f v).0 ≡ fail e
      → may_follow_write e ≡ false
      → SameCorpus x u (continue r f v).1
  Careful-continue u v (done a) f h k e q c =
      (SameCorpus-IsPreorder x).transitive u v _ h ((k a).at v e q c)
  Careful-continue u v (fail e') f h k e q c = h

  -- What only reads may stand in front.
  pub Careful-bind :
      (m : Do x A) (f : A → Do x B)
      → ReadOnly x m
      → ((a : A) → Careful x (f a))
      → Careful x (m >>= f)
  unfolding ◌>>=◌
  Careful-bind m f h k = record {
    at = λ w e q c. Careful-continue w (m w).1 (m w).0 f (h.at w) k e q c;
  }

  pub Careful-gets :
      (g : World x → A) (f : A → Do x B) → ((a : A) → Careful x (f a)) → Careful x (gets g >>= f)
  Careful-gets g f k = Careful-bind _ f (Respects-gets (SameCorpus-IsPreorder x) g) k

  pub Careful-or_stop :
      (o : Option A) (e : Failure) (f : A → Do x B)
      → ((a : A) → Careful x (f a))
      → Careful x (or_stop o e >>= f)
  Careful-or_stop o e f k = Careful-bind _ f (Respects-or_stop (SameCorpus-IsPreorder x) o e) k

  Careful-answered :
      (u v : World x) (r : Outcome A) (f : A → B)
      → ((e : Failure) → r ≡ fail e → may_follow_write e ≡ false → SameCorpus x u v)
      → (e : Failure) → (continue r (λ a. pure (f a)) v).0 ≡ fail e
      → may_follow_write e ≡ false
      → SameCorpus x u (continue r (λ a. pure (f a)) v).1
  unfolding ◌>>=◌
  Careful-answered u v (done a) f h e q c = cc
  Careful-answered u v (fail e') f h e q c = h e (cc) c

  -- What builds the reply may stand behind.
  pub Careful-map : (m : Do x A) (f : A → B) → Careful x m → Careful x (m >>= λ a. pure (f a))
  unfolding ◌>>=◌
  Careful-map m f h = record { at = λ w e q c. Careful-answered w (m w).1 (m w).0 f (h.at w) e q c }

  -- An outcome that was found without the state.
  pub Careful-settled :
      (o : Outcome A) (f : A → Do x B) → ((a : A) → Careful x (f a)) → Careful x (settled o >>= f)
  Careful-settled o f k = Careful-bind _ f (record { at = λ w. SameCorpus-refl x w }) k

module _ (x : External) {B : Type 0} where
  pub Careful-stop_if :
      (b : Bool) (e : Failure) (f : Unit {0} → Do x B)
      → ((u : Unit {0}) → Careful x (f u))
      → Careful x (stop_if b e >>= f)
  Careful-stop_if b e f k = Careful-bind x _ f (Respects-stop_if (SameCorpus-IsPreorder x) b e) k

  pub Careful-ensure :
      (f : Unit {0} → Do x B)
      → ((u : Unit {0}) → Careful x (f u))
      → Careful x (ensure_initialized x >>= f)
  Careful-ensure f k = Careful-bind x _ f (ensure_initialized-ReadOnly x) k

  pub Careful-locate :
      (id : Text) (f : FilePath → Do x B)
      → ((path : FilePath) → Careful x (f path))
      → Careful x (locate_or_stop x id >>= f)
  Careful-locate id f k = Careful-bind x _ f (locate_or_stop-ReadOnly x id) k

  pub Careful-parse :
      (path : FilePath) (f : ParsedPage x → Do x B)
      → ((p : ParsedPage x) → Careful x (f p))
      → Careful x (parse_or_raise x path >>= f)
  Careful-parse path f k = Careful-bind x _ f (parse_or_raise-ReadOnly x path) k

  -- A write and an indexer run, with what only builds the reply behind them.
  pub Careful-write :
      (path : FilePath) (page : Page x) (body : Text) (f : Unit {0} → Do x B)
      → ((u : Unit {0}) → FailsLate x (f u))
      → Careful x (serialize_and_write_page x path page body >>= f)
  unfolding serialize_and_write_page
  Careful-write path page body f k =
      Careful-late x _ (FailsBy-bind _ f (record { at = λ w e q. cc }) k)

  pub FailsLate-index : (f : IndexResult → B) → FailsLate x (run_indexer x >>= λ r. pure (f r))
  FailsLate-index f = FailsBy-bind _ _ (run_indexer-FailsLate x) λ r. FailsBy-pure (f r)

pub ruleset careful_rules = (
  Careful-if, Careful-stop, Careful-pure, Careful-with_mutex, Careful-gets, Careful-or_stop,
  Careful-settled, Careful-locate, Careful-parse, Careful-stop_if, Careful-ensure, Careful-write,
  FailsLate-index, FailsBy-bind, FailsBy-pure, run_indexer-FailsLate,
)

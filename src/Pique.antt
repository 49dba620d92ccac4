-- ===== src/Pique.antt =====
-- The part of pique, the PostgreSQL wire library, that the proxy calls. Its sources are not in the
-- repository: the structs have the fields that the proxy reads and writes, and the functions are
-- parameters, with what the proxy relies on as laws.
pub mod Wire
use pqproxy.Base.{ℕ, ◌<◌, ◌≡◌, Bool, true, List, ℤ, Str, length}

-- pq_parse_t
pub record Parse : Type 0 where
  pub statement : Str
  pub query : Str
  pub n_param_types : ℕ
  pub param_type_oids : List ℕ

-- pqwire_prepared_stmt_t
pub record Prepared : Type 0 where
  pub name : Str
  pub query : Str
  pub n_param_types : ℕ
  pub param_type_oids : List ℕ
  pub identity_param_slot : ℤ

-- pqwire_prepared_from_parse (parse, &stmt): whether it returned 0, and the struct afterwards.
-- `stmt_cap` and `query_cap` are the sizes of the name and query buffers.
pub record PrepareApi : Type 0 where
  pub stmt_cap : ℕ
  pub query_cap : ℕ
  pub from_parse : Parse → Prepared → Bool × Prepared

-- A parse whose texts fit their buffers.
pub record Fits (api : PrepareApi) (p : Parse) : Type 0 where
  pub name_fits : length p.statement < api.stmt_cap
  pub query_fits : length p.query < api.query_cap

-- The entry holds what the Parse message said.
pub record Copied (p : Parse) (s : Prepared) : Type 0 where
  pub name : s.name ≡ p.statement
  pub query : s.query ≡ p.query
  pub n_param_types : s.n_param_types ≡ p.n_param_types
  pub param_type_oids : s.param_type_oids ≡ p.param_type_oids

-- What the cache relies on: a parse that fits is accepted, and an accepted parse is copied.
pub record PrepareLaws (api : PrepareApi) : Type 0 where
  pub accepts : (p : Parse) (s : Prepared) → Fits api p → (api.from_parse p s).0 ≡ true
  pub copies :
      (p : Parse) (s : Prepared) → (api.from_parse p s).0 ≡ true → Copied p (api.from_parse p s).1

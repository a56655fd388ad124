-- ===== src/Sql/Source.antt =====
-- include/minidb/sql_source.hpp: positions in a source text.
use minidb_cpp.Prelude.{ℕ}

pub record SourceLocation : Type 0 where
  pub offset : ℕ
  pub line : ℕ
  pub column : ℕ

pub record SourceSpan : Type 0 where
  pub begin : SourceLocation
  pub end : SourceLocation

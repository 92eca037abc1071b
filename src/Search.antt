-- ===== src/Search.antt =====
-- apps/web/src/lib/nlpSearch.ts
pub mod Keywords
pub mod Tokenize
pub mod RoundTrip
pub mod Tags
pub mod Match
pub mod Ranking
pub mod Results
pub mod Samples
mod Tests

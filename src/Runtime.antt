-- ===== src/Runtime.antt =====
-- What the bridge takes from Node.js and does not implement: JSON texts, SHA-256, the bytes of a
-- text. `Document` is a text that was made or is read as JSON.
use hermes_codex_bridge.Base.{ℕ, String, ◌≡◌, ◌↔◌, Bool, true, Option, some}
use hermes_codex_bridge.Base.Json.{Json}
pub mod Sample

pub record Runtime : Type 1 where
  pub Document : Type 0
  -- `JSON.stringify(value)`, and with an indent of 2 and a newline
  pub stringify : Json → Document
  pub pretty : Json → Document
  -- `JSON.parse(text)`, `none` where it throws
  pub parse : Document → Option Json
  pub same : Document → Document → Bool
  pub byte_length : Document → ℕ
  -- `createHash("sha256").update(text, "utf8").digest("hex")`
  pub sha256 : Document → String

-- What the proofs rely on: comparison is exact, and a written value is read back as itself.
pub record IsFaithful (r : Runtime) : Type 0 where
  pub same_iff : (s t : r.Document) → (r.same s t ≡ true) ↔ (s ≡ t)
  pub parse-stringify : (v : Json) → r.parse (r.stringify v) ≡ some v
  pub parse-pretty : (v : Json) → r.parse (r.pretty v) ≡ some v

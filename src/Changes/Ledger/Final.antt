-- ===== src/Changes/Ledger/Final.antt =====
-- What the ledger keeps of a recorded change (src/stigmergy/changes/store.py).
use stigmergy.Prelude.{ℕ, String, List}
use stigmergy.Capture.Uploads.{Objects}
use stigmergy.Changes.Ledger.{Change, Ledger, Landed, record_change}

-- Recordings by any tenants, and any change to the evidence store between them.
pub data Course (sha256 : List ℕ → String) (compress : List ℕ → List ℕ) (a : Ledger)
    : Ledger → Type 0 where
  begun : Course sha256 compress a a
  then_record :
      {b : Ledger} (t id now : ℕ) (l : Landed)
      → Course sha256 compress a b
      → Course sha256 compress a (record_change sha256 compress t id now l b).1
  then_evidence :
      {b : Ledger} (objects : Objects)
      → Course sha256 compress a b
      → Course sha256 compress a (record b { objects = objects })

abbrev pub place : Change → ℕ × String
place r = (r.tenant_id, r.commit_sha)

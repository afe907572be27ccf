-- ===== src/Tests/Knowledge.antt =====
-- Two aliases of two pages, of which the second cannot be written
-- (src/stigmergy/knowledge/aliases.py).
use stigmergy.Prelude.{ℕ, ◌≡◌, ◌≤◌, String, true, some, List, [], ◌∷◌, ◌==◌, length, All}
use stigmergy.Prelude.Dict
use stigmergy.Prelude.Dict.{Dict}
use stigmergy.Knowledge.Aliases.{
  Candidate, Answer, probability, Decision, Disk, Written, written, undone, accepted_of,
}
use stigmergy.Knowledge.Aliases.Landed.{with_aliases, run, record_aliases-all_or_none}

abbrev two_names : List Candidate
two_names =
    record { entity = "wiki/entities/ann.md"; text = "Annie"; sentence = "Annie spoke" }
    ∷ (record { entity = "wiki/entities/acme.md"; text = "ACME"; sentence = "ACME grew" } ∷ [])

abbrev pages : Dict String
pages = ("wiki/entities/ann.md", "Ann") ∷ (("wiki/entities/acme.md", "Acme") ∷ [])

abbrev full_disk : Disk
full_disk = record {
  allowed = λ path. true;
  edit = λ path alias text. some alias;
  writes = λ n. n == 0;
  torn = "";
}

abbrev sure : Candidate → ℕ → Answer
sure c timeout = probability 900_000

abbrev at_once : ℕ → ℕ
at_once index = 0

abbrev outcome : List (Candidate × Decision) × Written
outcome = run sure at_once 8 10 5 1 full_disk two_names pages

record_aliases-all_or_none_example :
    ((left : Dict String)
      → outcome.1 ≡ undone left
      → (k : String) → Dict.get k left ≡ Dict.get k pages)
    × ((left before : Dict String)
        → outcome.1 ≡ written left before
        → ((k : String)
            → Dict.get k left ≡ with_aliases full_disk k (accepted_of outcome.0) (Dict.get k pages))
          × All (λ (e : String × String). Dict.get e.0 pages ≡ some e.1) before)
    × (length (accepted_of outcome.0) ≤ 8)
record_aliases-all_or_none_example =
    record_aliases-all_or_none sure at_once 8 10 5 1 full_disk two_names pages

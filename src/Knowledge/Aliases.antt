-- ===== src/Knowledge/Aliases.antt =====
-- `record` of src/stigmergy/knowledge/aliases.py: the decisions on the candidates, and the writing of
-- the accepted ones. A page's file is a text under its path. The classifier, the clock, the guard of
-- paths and the parsing and rendering of a page are arguments; a probability is in millionths.
pub mod Landed
use stigmergy.Prelude.{
  ℕ, suc, ◌-◌, ◌%◌, String, Bool, true, false, Option, none, some, List, [], ◌∷◌, ◌++◌, leb, min,
  if◌then◌else◌, drop, take, length, is_empty,
}
use stigmergy.Prelude.Dict
use stigmergy.Prelude.Dict.{Dict}

abbrev pub threshold : ℕ
threshold = 750_000

abbrev pub max_candidates : ℕ
max_candidates = 8

pub record Candidate : Type 0 where
  pub entity : String
  pub text : String
  pub sentence : String

-- the classifier's answer: a probability, or DecisionFailed with its reason
pub data Answer : Type 0 where
  probability : ℕ → Answer
  decision_failed : String → Answer

pub data Decision : Type 0 where
  past_cap past_deadline : Decision
  skipped : String → Decision
  rejected accepted : ℕ → Decision

abbrev pub weighed : Answer → Decision
weighed (decision_failed reason) = skipped reason
weighed (probability p) = if leb threshold p then accepted p else rejected p

abbrev pub is_accepted : Decision → Bool
is_accepted (accepted p) = true
is_accepted _ = false

-- found[start % len(found):] + found[:start % len(found)]
unfoldable pub rotated : ℕ → List Candidate → List Candidate
rotated start [] = []
rotated start (c ∷ cs) = let n = start % length (c ∷ cs) in drop n (c ∷ cs) ++ take n (c ∷ cs)

-- the files, and the guard, parser and renderer, as a plan's writing meets them
pub record Disk : Type 0 where
  pub allowed : String → Bool  -- path_of gives the guarded path
  pub edit : String → String → String → Option String  -- the page of a path, with one more alias
  pub writes : ℕ → Bool  -- whether the n-th write succeeds
  pub torn : String  -- what a write that fails leaves

module _ (decide : Candidate → ℕ → Answer) (elapsed : ℕ → ℕ) (cap window decision_timeout : ℕ) where
  -- the decision on the candidate of an index, `elapsed` being the time that has gone by
  unfoldable pub judge : ℕ → Candidate → Decision
  judge index c =
      if leb cap index
      then past_cap
      else if leb window (elapsed index)
      then past_deadline
      else weighed (decide c (min (window - elapsed index) decision_timeout))

  unfoldable pub judge_all : ℕ → List Candidate → List (Candidate × Decision)
  unfolding judge
  judge_all index [] = []
  judge_all index (c ∷ cs) = (c, judge index c) ∷ judge_all (suc index) cs

abbrev pub accepted_of : List (Candidate × Decision) → List Candidate
accepted_of [] = []
accepted_of ((c, d) ∷ report) =
    let rest = accepted_of report in if is_accepted d then c ∷ rest else rest

-- before.setdefault(path, text)
unfoldable pub set_default : String → String → Dict String → Dict String
set_default path text before = elim (Dict.get path before) [
  | some old ↦ before
  | none ↦ before ++ (path, text) ∷ []
]

-- the writes of the `except` clause, which are taken to succeed
unfoldable pub restore : Dict String → Dict String → Dict String
restore [] files = files
restore ((path, text) ∷ before) files = restore before (Dict.put path text files)

pub data Written : Type 0 where
  written : (files before : Dict String) → Written
  undone : (files : Dict String) → Written

module _ (disk : Disk) where
  -- one accepted candidate whose file is read: the edited text, or the exception
  unfoldable pub write_all : ℕ → List Candidate → Dict String → Dict String → Written
  unfolding set_default restore
  write_all n [] files before = written files before
  write_all n (c ∷ cs) files before = elim (disk.allowed c.entity) [
    | false ↦ undone (restore before files)
    | true ↦ elim (Dict.get c.entity files) [
      | none ↦ undone (restore before files)
      | some text ↦
          let kept = set_default c.entity text before in
          elim (disk.edit c.entity c.text text) [
            | none ↦ undone (restore kept files)
            | some new ↦ elim (disk.writes n) [
              | false ↦ undone (restore kept (Dict.put c.entity disk.torn files))
              | true ↦ write_all (suc n) cs (Dict.put c.entity new files) kept
            ]
          ]
    ]
  ]

-- `record`, for the candidates that are found
unfoldable pub record_aliases :
    (decide : Candidate → ℕ → Answer) (elapsed : ℕ → ℕ) (cap window decision_timeout start : ℕ)
    → Disk
    → List Candidate
    → Dict String
    → List (Candidate × Decision) × Written
unfolding judge_all rotated write_all
record_aliases decide elapsed cap window decision_timeout start disk found files =
    let report = judge_all decide elapsed cap window decision_timeout 0 (rotated start found) in
    (report, write_all disk 0 (accepted_of report) files [])

-- ===== src/Tests/Changes.antt =====
-- A patch of two pages and a ledger of one change (src/stigmergy/changes).
use stigmergy.Prelude.{
  ℕ, ◌≡◌, refl, String, none, some, inl, List, [], ◌∷◌, map, text_eq, after_prefix, Text, codes, ap,
  ◌++◌, ◌==◌, if◌then◌else◌, Option, length,
}
use stigmergy.Index.Fragments.Lines.{split_lines}
use stigmergy.Capture.Uploads.{content, Objects, get, put}
use stigmergy.Changes.Patches.{header_path, path_patches}
use stigmergy.Changes.Patches.Headers.{header, header_path-header}
use stigmergy.Changes.Patches.Sections.{
  Section, IsReadable, print_all, entry, path_patches-print_all,
}
use stigmergy.Changes.Ledger.{
  Trigger, Change, Ledger, Landed, record_of, get_change_by_commit, new_change, insert_change,
  record_change, patch_of, stored_patch, load_exact_patch,
}
use stigmergy.Changes.Ledger.Exact.{load_exact_patch-record_change}

abbrev page : Text
page = codes "wiki/notes/a.md"

header_path-header_example : header_path (header page) ≡ some page
header_path-header_example = header_path-header page (inl refl)

abbrev first_page : Section
first_page = record { path = page; body = codes "+a" ++ (10 ∷ []) }

abbrev second_page : Section
second_page = record { path = codes "sources/b.md"; body = codes "-b" ++ (10 ∷ []) }

first-IsReadable : IsReadable first_page
unfolding split_lines after_prefix
first-IsReadable = record {
  one_line = refl;
  named = header_path-header page (inl refl);
  ended = refl;
  no_header = (refl, tt);
}

second-IsReadable : IsReadable second_page
unfolding split_lines after_prefix
second-IsReadable = record {
  one_line = refl;
  named = header_path-header (codes "sources/b.md") (inl refl);
  ended = refl;
  no_header = (refl, tt);
}

other_path : page ≡ codes "sources/b.md" → ⊥
unfolding text_eq
other_path e = absurd (cc (ap (λ t. text_eq t page) e))

path_patches-print_all_example :
    path_patches (print_all (first_page ∷ second_page ∷ []))
    ≡ map entry (first_page ∷ second_page ∷ [])
path_patches-print_all_example =
    path_patches-print_all (first_page ∷ second_page ∷ [])
      (first-IsReadable, (second-IsReadable, tt)) ((other_path, tt), (tt, tt))

-- a digest that tells texts by their first byte
abbrev digest : List ℕ → String
digest [] = "none"
digest (b ∷ bs) = if b == 1 then "one" else "some"

abbrev pack : List ℕ → List ℕ
pack patch = 1 ∷ patch

abbrev unpack : List ℕ → Option (List ℕ)
unpack [] = none
unpack (b ∷ bs) = some bs

abbrev landed : Landed
landed = record {
  trigger = Trigger.capture;
  actor = "ann";
  capture_id = some 5;
  job_run_id = none;
  parent_commit_sha = "p";
  commit_sha = "c";
  summary = "s";
  manifest = [];
  patch = 7 ∷ 8 ∷ [];
}

abbrev no_changes : Ledger
no_changes = record { changes = []; objects = [] }

abbrev row : Change
row = new_change digest 1 30 50 (content "one") landed

abbrev one_change : Ledger
one_change = record { changes = row ∷ []; objects = [] }

-- Another tenant records a commit of the same name, and the evidence is lost.
abbrev two_changes : Ledger
two_changes = (record_change digest pack 2 31 60 landed one_change).1

abbrev git_fails : Change → Option (List ℕ)
git_fails r = none

recorded_first : (record_change digest pack 1 30 50 landed no_changes).0 ≡ record_of row
unfolding record_change insert_change new_change get_change_by_commit put get
recorded_first = refl

nothing_there :
    (b : List ℕ) → get (content (digest (pack landed.patch))) [] ≡ some b → b ≡ pack landed.patch
unfolding get
nothing_there b e = absurd (cc e)

fresh : get_change_by_commit 1 "c" [] ≡ none
unfolding get_change_by_commit
fresh = refl

load_exact_patch-record_change_example :
    (load_exact_patch digest unpack git_fails row
        (record_change digest pack 1 30 50 landed no_changes).1.objects
      ≡ patch_of (7 ∷ 8 ∷ []))
    × (git_fails row ≡ some (7 ∷ 8 ∷ [])
        → (later : Objects) → stored_patch unpack row later ≡ none
        → load_exact_patch digest unpack git_fails row later ≡ patch_of (7 ∷ 8 ∷ []))
    × ((later : Objects) (p : List ℕ)
        → load_exact_patch digest unpack git_fails row later ≡ patch_of p
        → (digest p ≡ "some") × (length p ≡ 2))
load_exact_patch-record_change_example =
    load_exact_patch-record_change digest pack unpack git_fails 1 30 50 landed no_changes row refl
      nothing_there fresh recorded_first

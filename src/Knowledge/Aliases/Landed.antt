-- ===== src/Knowledge/Aliases/Landed.antt =====
-- Every accepted alias lands, or no file changes (src/stigmergy/knowledge/aliases.py).
use stigmergy.Prelude.{
  ℕ, suc, ◌-◌, ◌≤◌, ◌<◌, leb, length, ◌≡◌, refl, sym, ap, ◌∙◌, subst, String, Bool, true, false,
  Option, none, some, ◌⊎◌, inl, inr, List, [], ◌∷◌, ◌++◌, arith, str_eq, eq_iff, if◌then◌else◌,
  is_some, All, All-append, Bool-cases, Option-cases,
}
use stigmergy.Prelude.Dict
use stigmergy.Prelude.Dict.{Dict, get-put}
use stigmergy.Knowledge.Aliases.{
  Candidate, Answer, Decision, Disk, is_accepted, judge, judge_all, rotated, accepted_of,
  set_default, restore, Written, written, undone, write_all, record_aliases,
}

abbrev pub edited : Disk → Candidate → Option String → Option String
edited disk c none = none
edited disk c (some text) = disk.edit c.entity c.text text

-- a page's text with the aliases of the candidates for it, one after the other
abbrev pub with_aliases : Disk → String → List Candidate → Option String → Option String
with_aliases disk path [] text = text
with_aliases disk path (c ∷ cs) text =
    with_aliases disk path cs (if str_eq c.entity path then edited disk c text else text)

abbrev has_key : String → Dict String → Bool
has_key k d = is_some (Dict.get k d)

module _ (start : Dict String) where
  -- what was kept is what the files held at first, and a file that differs was kept
  record Kept (files before : Dict String) : Type 0 where
    same : All (λ (e : String × String). Dict.get e.0 start ≡ some e.1) before
    else_same : (k : String) → (Dict.get k files ≡ Dict.get k start) ⊎ (has_key k before ≡ true)

  restored :
      (before files : Dict String)
      → Kept files before
      → (k : String) → Dict.get k (restore before files) ≡ Dict.get k start
  unfolding restore Dict.get
  restored [] files h k = elim (h.else_same k) [ inl e ↦ e | inr e ↦ absurd (cc e) ]
  restored ((path, text) ∷ before) files h k =
      restored before (Dict.put path text files)
        (record {
          same = h.same.1;
          else_same = λ j. elim (Bool-cases (str_eq path j)) [
            | inl e ↦ inl (
                get-put path j text files
                ∙ rw e (sym (h.same.0) ∙ ap (λ x. Dict.get x start) ((eq_iff path j).0 e)))
            | inr e ↦ elim (h.else_same j) [
              | inl f ↦ inl (get-put path j text files ∙ rw e f)
              | inr f ↦ inr (rw e at f)
            ]
          ];
        })
        k

  get_snoc :
      (k path t : String) (d : Dict String)
      → has_key k (d ++ (path, t) ∷ []) ≡ (if has_key k d then true else str_eq path k)
  unfolding Dict.get
  get_snoc k path t [] = elim (Bool-cases (str_eq path k)) [ inl e ↦ rw e refl | inr e ↦ rw e refl ]
  get_snoc k path t ((j, v) ∷ d) = elim (Bool-cases (str_eq j k)) [
    | inl e ↦ rw e refl
    | inr e ↦ rw e (get_snoc k path t d)
  ]

  default_there :
      (path text : String) (before : Dict String)
      → has_key path (set_default path text before) ≡ true
  unfolding set_default
  default_there path text before = elim (Option-cases (Dict.get path before)) [
    | inr (old, e) ↦ rw (e, set_default) (rw e refl)
    | inl e ↦
        rw (e, set_default)
          (get_snoc path path text before ∙ rw (e, (eq_iff path path).1 refl) refl)
  ]

  default_more :
      (path text k : String) (before : Dict String)
      → has_key k before ≡ true
      → has_key k (set_default path text before) ≡ true
  unfolding set_default
  default_more path text k before h = elim (Option-cases (Dict.get path before)) [
    | inr (old, e) ↦ rw (e, set_default) h
    | inl e ↦ rw (e, set_default) (get_snoc k path text before ∙ rw h refl)
  ]

  -- Keeping the text that is read, before the file is written or not.
  after_default :
      (files after before : Dict String) (path text : String)
      → Kept files before
      → Dict.get path files ≡ some text
      → ((k : String) → str_eq path k ≡ false → Dict.get k after ≡ Dict.get k files)
      → Kept after (set_default path text before)
  unfolding set_default
  after_default files after before path text h g away = record {
    same = elim (Option-cases (Dict.get path before)) [
      | inr (old, e) ↦ rw (e, set_default) h.same
      | inl e ↦
          rw (e, set_default) (All-append _ before ((path, text) ∷ []) h.same (at_first e, tt))
    ];
    else_same = λ k. elim (Bool-cases (str_eq path k)) [
      | inl e ↦ inr (
          subst (λ j. has_key j (set_default path text before) ≡ true) ((eq_iff path k).0 e)
            (default_there path text before))
      | inr e ↦ elim (h.else_same k) [
        | inl f ↦ inl (away k e ∙ f)
        | inr f ↦ inr (default_more path text k before f)
      ]
    ];
  }
    where
      at_first : Dict.get path before ≡ none → Dict.get path start ≡ some text
      at_first e = elim (h.else_same path) [ inl f ↦ sym f ∙ g | inr f ↦ absurd (cc (rw e at f)) ]

  -- the outcome of the writes from some point on
  record Ends (disk : Disk) (cs : List Candidate) (files : Dict String) (w : Written) : Type 0 where
    undone_all :
        (left : Dict String) → w ≡ undone left → (k : String) → Dict.get k left ≡ Dict.get k start
    landed :
        (left before : Dict String)
        → w ≡ written left before
        → ((k : String) → Dict.get k left ≡ with_aliases disk k cs (Dict.get k files))
          × All (λ (e : String × String). Dict.get e.0 start ≡ some e.1) before

  undone_of : {a b : Dict String} → undone a ≡ undone b → a ≡ b
  undone_of {a} h = ap (λ w. elim w [ undone x ↦ x | written x y ↦ a ]) h

  given_up :
      (disk : Disk) (cs : List Candidate) (files after before : Dict String)
      → Kept after before
      → Ends disk cs files (undone (restore before after))
  given_up disk cs files after before h = record {
    undone_all = λ left e k. ap (Dict.get k) (sym (undone_of e)) ∙ restored before after h k;
    landed = λ left b e. absurd (cc e);
  }

  write_all_Ends :
      (disk : Disk) (n : ℕ) (cs : List Candidate) (files before : Dict String)
      → Kept files before
      → Ends disk cs files (write_all disk n cs files before)
  unfolding write_all
  write_all_Ends disk n [] files before h = record {
    undone_all = λ left e. absurd (cc e);
    landed = λ left b e.
        let f : files ≡ left = ap (λ w. elim w [ written x y ↦ x | undone x ↦ files ]) e in
        let g : before ≡ b = ap (λ w. elim w [ written x y ↦ y | undone x ↦ before ]) e in
        (
          λ k. ap (Dict.get k) (sym f),
          subst (All (λ (x : String × String). Dict.get x.0 start ≡ some x.1)) g h.same,
        );
  }
  write_all_Ends disk n (c ∷ cs) files before h = elim (Bool-cases (disk.allowed c.entity)) [
    | inr a ↦ rw (a, write_all) (given_up disk (c ∷ cs) files files before h)
    | inl a ↦ elim (Option-cases (Dict.get c.entity files)) [
      | inl g ↦ rw (a, write_all, g) (given_up disk (c ∷ cs) files files before h)
      | inr (text, g) ↦
          let kept = set_default c.entity text before in
          elim (Option-cases (disk.edit c.entity c.text text)) [
            | inl e ↦
                rw (a, write_all, g, e)
                  (given_up disk (c ∷ cs) files files kept
                    (after_default files files before c.entity text h g (λ k d. refl)))
            | inr (new, e) ↦ elim (Bool-cases (disk.writes n)) [
              | inr w ↦
                  rw (a, write_all, g, e, w)
                    (given_up disk (c ∷ cs) files (Dict.put c.entity disk.torn files) kept
                      (after_default files _ before c.entity text h g (aside disk.torn)))
              | inl w ↦
                  rw (a, write_all, g, e, w)
                    (onward text new g e (
                      write_all_Ends disk (suc n) cs (Dict.put c.entity new files) kept
                        (after_default files _ before c.entity text h g (aside new))))
            ]
          ]
    ]
  ]
    where
      aside :
          (new k : String)
          → str_eq c.entity k ≡ false
          → Dict.get k (Dict.put c.entity new files) ≡ Dict.get k files
      aside new k d = get-put c.entity k new files ∙ rw d refl

      onward :
          (text new : String)
          → Dict.get c.entity files ≡ some text
          → disk.edit c.entity c.text text ≡ some new
          → {w : Written} → Ends disk cs (Dict.put c.entity new files) w
          → Ends disk (c ∷ cs) files w
      onward text new g e t = record {
        undone_all = t.undone_all;
        landed = λ left b q.
            let (f, s) = t.landed left b q in (λ k. f k ∙ ap (with_aliases disk k cs) (step k), s);
      }
        where
          step :
              (k : String)
              → Dict.get k (Dict.put c.entity new files)
                ≡ (if str_eq c.entity k then edited disk c (Dict.get k files) else Dict.get k files)
          step k = elim (Bool-cases (str_eq c.entity k)) [
            | inr d ↦ aside new k d ∙ rw d refl
            | inl d ↦
                get-put c.entity k new files
                ∙ rw d (
                    sym e
                    ∙ ap (edited disk c)
                        (sym g ∙ ap (λ j. Dict.get j files) ((eq_iff c.entity k).0 d)))
          ]

module _ (decide : Candidate → ℕ → Answer) (elapsed : ℕ → ℕ) (cap window decision_timeout : ℕ) where
  accepted_early :
      (index : ℕ) (c : Candidate)
      → is_accepted (judge decide elapsed cap window decision_timeout index c) ≡ true
      → index < cap
  unfolding judge
  accepted_early index c h = elim (Bool-cases (leb cap index)) [
    | inl e ↦ absurd (cc (rw (e, judge) at h))
    | inr e ↦ ground arith
  ]

  accepted_of-bound :
      (index : ℕ) (cs : List Candidate)
      → length (accepted_of (judge_all decide elapsed cap window decision_timeout index cs))
        ≤ cap - index
  unfolding judge_all
  accepted_of-bound index [] = omega arith
  accepted_of-bound index (c ∷ cs) =
      let rest = accepted_of-bound (suc index) cs in
      elim (Bool-cases (is_accepted (judge decide elapsed cap window decision_timeout index c))) [
        | inl e ↦ rw e (omega (arith, rest, accepted_early index c e))
        | inr e ↦ rw e (omega (arith, rest))
      ]

  abbrev pub run : ℕ → Disk → List Candidate → Dict String → List (Candidate × Decision) × Written
  run = record_aliases decide elapsed cap window decision_timeout

  -- At most `cap` candidates are accepted, and all of their aliases land or none does: where any guard,
  -- read, edit or write of the run fails, and the texts that were read can be put back, every file is
  -- left as it was, even the one that the write damaged; otherwise every page has its text with the aliases accepted for it, one after the other,
  -- every other file is as it was, and each text that is given back is the one of before.
  pub record_aliases-all_or_none :
      (start : ℕ) (disk : Disk) (found : List Candidate) (files : Dict String)
      → ((left : Dict String)
          → (run start disk found files).1 ≡ undone left
          → (k : String) → Dict.get k left ≡ Dict.get k files)
        × ((left before : Dict String)
            → (run start disk found files).1 ≡ written left before
            → ((k : String)
                → Dict.get k left
                  ≡ with_aliases disk k
                      (accepted_of (run start disk found files).0)
                      (Dict.get k files))
              × All (λ (e : String × String). Dict.get e.0 files ≡ some e.1) before)
        × (length (accepted_of (run start disk found files).0) ≤ cap)
  unfolding record_aliases
  record_aliases-all_or_none start disk found files =
      let w =
        write_all_Ends files disk 0 _ files [] (record { same = tt; else_same = λ k. inl refl }) in
      let bound = accepted_of-bound 0 (rotated start found) in
      (w.undone_all, w.landed, omega (arith, bound))

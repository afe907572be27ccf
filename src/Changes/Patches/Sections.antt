-- ===== src/Changes/Patches/Sections.antt =====
-- The patches of paths, put together and taken apart (`path_patches` of src/stigmergy/changes/diff.py).
use stigmergy.Prelude.{
  ℕ, ◌≡◌, ◌≢◌, refl, sym, ap, ◌∙◌, Bool, true, false, ◌&&◌, not, Option, none, some, inl, inr, List,
  [], ◌∷◌, ◌++◌, map, arith, ◌==◌, is_empty, if◌then◌else◌, all, Text, text_eq, text_eq_iff,
  after_prefix, All, All-append, Bool-cases, &&-elim,
}
use stigmergy.Index.Fragments.Lines.{is_break, starts_with, attach, split_lines}
use stigmergy.Changes.Patches.{
  is_header, longer, chomp, put, close, header_path, collect, path_patches,
}
use stigmergy.Changes.Patches.Headers.{header}

-- a text that ends its last line, or is empty
abbrev pub IsLined : Text → Type 0
IsLined [] = Unit
IsLined (c ∷ []) = c ≡ 10
IsLined (c ∷ d ∷ cs) = IsLined (d ∷ cs)

abbrev concat : List Text → Text
concat [] = []
concat (l ∷ ls) = l ++ concat ls

-- the patch of one path: its header, and lines behind it
pub record Section : Type 0 where
  pub path : Text
  pub body : Text

abbrev pub print : Section → Text
print s = header s.path ++ (10 ∷ s.body)

abbrev pub print_all : List Section → Text
print_all [] = []
print_all (s ∷ ss) = print s ++ print_all ss

-- the header is one line that names the path, and no line behind it reads as a header
pub record IsReadable (s : Section) : Type 0 where
  pub one_line : all (λ c. not (is_break c)) (header s.path) ≡ true
  pub named : header_path (header s.path) ≡ some s.path
  pub ended : IsLined s.body
  pub no_header : All (λ l. is_header l ≡ false) (split_lines s.body)

-- no two sections are for one path
abbrev pub AreApart : List Section → Type 0
AreApart [] = Unit
AreApart (s ∷ ss) = All (λ (r : Section). s.path ≢ r.path) ss × AreApart ss

attach_append : (c : ℕ) (xs ys : List Text) → xs ≢ [] → attach c (xs ++ ys) ≡ attach c xs ++ ys
attach_append c [] ys h = absurd (h refl)
attach_append c (x ∷ xs) ys h = refl

split_nonempty : (c : ℕ) (s : Text) → split_lines (c ∷ s) ≢ []
unfolding split_lines
split_nonempty c s e = elim (Bool-cases (is_break c && not ((c == 13) && starts_with 10 s))) [
  | inl h ↦ absurd (cc (rw h at e))
  | inr h ↦ grown (split_lines s) (rw h at e)
]
  where
    grown : (xs : List Text) → attach c xs ≡ [] → ⊥
    grown [] g = cc g
    grown (x ∷ xs) g = cc g

-- Behind the end of a line the lines are those of the rest.
split_lines-append :
    (s t : Text) → IsLined s → split_lines (s ++ t) ≡ split_lines s ++ split_lines t
unfolding split_lines
split_lines-append [] t h = refl
split_lines-append (c ∷ []) t h = rw h refl
split_lines-append (c ∷ d ∷ cs) t h =
    let rest = split_lines-append (d ∷ cs) t h in
    elim (Bool-cases (is_break c && not ((c == 13) && starts_with 10 (d ∷ cs)))) [
      | inl e ↦ rw (e, rest) refl
      | inr e ↦
          rw (e, rest)
            (attach_append c (split_lines (d ∷ cs)) (split_lines t) (split_nonempty d cs))
    ]

-- A text with no end of line in it is one line.
split_lines-line :
    (s : Text)
    → all (λ c. not (is_break c)) s ≡ true
    → split_lines (s ++ 10 ∷ []) ≡ (s ++ 10 ∷ []) ∷ []
unfolding split_lines
split_lines-line [] h = refl
split_lines-line (c ∷ s) h =
    let (a, b) = &&-elim (not (is_break c)) (all (λ d. not (is_break d)) s) h in
    let e : is_break c ≡ false = ground arith in rw (e, split_lines-line s b) refl

concat-attach : (c : ℕ) (xs : List Text) → concat (attach c xs) ≡ c ∷ concat xs
concat-attach c [] = refl
concat-attach c (x ∷ xs) = refl

concat-split_lines : (s : Text) → concat (split_lines s) ≡ s
unfolding split_lines
concat-split_lines [] = refl
concat-split_lines (c ∷ cs) =
    let rest = concat-split_lines cs in
    elim (Bool-cases (is_break c && not ((c == 13) && starts_with 10 cs))) [
      | inl e ↦ rw (e, rest) refl
      | inr e ↦ rw (e, concat-attach c (split_lines cs), rest) refl
    ]

append_assoc : (s t u : Text) → (s ++ t) ++ u ≡ s ++ (t ++ u)
append_assoc [] t u = refl
append_assoc (c ∷ s) t u = ap (◌∷◌ c) (append_assoc s t u)

append_nil : {A : Type 0} (xs : List A) → xs ++ [] ≡ xs
append_nil [] = refl
append_nil (x ∷ xs) = ap (◌∷◌ x) (append_nil xs)

-- the end of a line goes when the line is read as a header
chomp_line : (s : Text) → all (λ c. not (is_break c)) s ≡ true → chomp (s ++ 10 ∷ []) ≡ s
unfolding chomp
chomp_line [] h = refl
chomp_line (c ∷ s) h =
    let (a, b) = &&-elim (not (is_break c)) (all (λ d. not (is_break d)) s) h in
    let e : (c == 10) ≡ false = ground arith in
    let again = chomp_line s b in
    elim (Bool-cases (is_empty s)) [ inl f ↦ rw (again, f, e) refl | inr f ↦ rw (again, f) refl ]

is_header-header : (p rest : Text) → is_header (header p ++ rest) ≡ true
unfolding after_prefix
is_header-header p rest = refl

-- one line of the loop
collect_line :
    (b : Bool) (path : Option Text) (text line : Text) (result : List (Text × Text))
    (more : List Text)
    → is_header line ≡ b
    → collect path text result (line ∷ more)
      ≡ collect
          (if b then header_path (chomp line) else path)
          (if b then line else longer path text line)
          (if b then close path text result else result)
          more
unfolding collect
collect_line b path text line result more h =
    ap
      (λ (x : Bool).
        collect (if x then header_path (chomp line) else path)
          (if x then line else longer path text line) (if x then close path text result else result)
          more)
      h

collect_body :
    (p text : Text) (result : List (Text × Text)) (ls more : List Text)
    → All (λ l. is_header l ≡ false) ls
    → collect (some p) text result (ls ++ more) ≡ collect (some p) (text ++ concat ls) result more
collect_body p text result [] more h = rw (append_nil text) refl
collect_body p text result (l ∷ ls) more h =
    collect_line false (some p) text l result (ls ++ more) h.0
    ∙ collect_body p (text ++ l) result ls more h.1
    ∙ ap (λ t. collect (some p) t result more) (append_assoc text l (concat ls))

lines_of-print :
    (s : Section) (rest : Text)
    → IsReadable s
    → split_lines (print s ++ rest)
      ≡ (header s.path ++ 10 ∷ []) ∷ (split_lines s.body ++ split_lines rest)
lines_of-print s rest v =
    let h = header s.path in
    let whole : print s ++ rest ≡ (h ++ 10 ∷ []) ++ (s.body ++ rest) =
      append_assoc h (10 ∷ s.body) rest ∙ sym (append_assoc h (10 ∷ []) (s.body ++ rest)) in
    ap split_lines whole
    ∙ split_lines-append (h ++ 10 ∷ []) (s.body ++ rest) (closed h)
    ∙ ap (λ ls. ls ++ split_lines (s.body ++ rest)) (split_lines-line h v.one_line)
    ∙ ap (λ ls. (h ++ 10 ∷ []) ∷ ls) (split_lines-append s.body rest v.ended)
  where
    closed : (t : Text) → IsLined (t ++ 10 ∷ [])
    closed [] = refl
    closed (c ∷ []) = refl
    closed (c ∷ d ∷ t) = closed (d ∷ t)

-- A section moves what was read before it to the result, and is what is read now.
collect_section :
    (path : Option Text) (text : Text) (result : List (Text × Text)) (s : Section) (rest : Text)
    → IsReadable s
    → collect path text result (split_lines (print s ++ rest))
      ≡ collect (some s.path) (print s) (close path text result) (split_lines rest)
collect_section path text result s rest v =
    let h = header s.path in
    let named : header_path (chomp (h ++ 10 ∷ [])) ≡ some s.path =
      ap header_path (chomp_line h v.one_line) ∙ v.named in
    let whole : (h ++ 10 ∷ []) ++ concat (split_lines s.body) ≡ print s =
      append_assoc h (10 ∷ []) (concat (split_lines s.body))
      ∙ ap (λ t. h ++ (10 ∷ t)) (concat-split_lines s.body) in
    ap (collect path text result) (lines_of-print s rest v)
    ∙ collect_line true path text (h ++ 10 ∷ []) result (split_lines s.body ++ split_lines rest)
        (is_header-header s.path (10 ∷ []))
    ∙ ap
        (λ o.
          collect o (h ++ 10 ∷ []) (close path text result)
            (split_lines s.body ++ split_lines rest))
        named
    ∙ collect_body s.path (h ++ 10 ∷ []) (close path text result) (split_lines s.body)
        (split_lines rest) v.no_header
    ∙ ap (λ t. collect (some s.path) t (close path text result) (split_lines rest)) whole

abbrev pub entry : Section → Text × Text
entry s = (s.path, print s)

put_new :
    (k v : Text) (d : List (Text × Text))
    → All (λ (e : Text × Text). e.0 ≢ k) d
    → put k v d ≡ d ++ (k, v) ∷ []
unfolding put
put_new k v [] h = refl
put_new k v ((j, w) ∷ d) h = elim (Bool-cases (text_eq j k)) [
  | inl e ↦ absurd (h.0 ((text_eq_iff j k).0 e))
  | inr e ↦ rw (e, put_new k v d h.1) refl
]

collect_all :
    (s : Section) (ss : List Section) (result : List (Text × Text))
    → All IsReadable ss
    → All (λ (r : Section). s.path ≢ r.path) ss
    → AreApart ss
    → All (λ (e : Text × Text). e.0 ≢ s.path) result
    → All (λ (r : Section). All (λ (e : Text × Text). e.0 ≢ r.path) result) ss
    → collect (some s.path) (print s) result (split_lines (print_all ss))
      ≡ result ++ map entry (s ∷ ss)
unfolding collect close split_lines
collect_all s [] result v a d n m = put_new s.path (print s) result n
collect_all s (r ∷ ss) result v a d n m =
    collect_section (some s.path) (print s) result r (print_all ss) v.0
    ∙ ap (λ d. collect (some r.path) (print r) d (split_lines (print_all ss)))
        (put_new s.path (print s) result n)
    ∙ collect_all r ss (result ++ entry s ∷ []) v.1 d.0 d.1
        (All-append _ result (entry s ∷ []) m.0 (a.0, tt)) (both ss m.1 a.1)
    ∙ list_assoc result (entry s) (map entry (r ∷ ss))
  where
    both :
        (rs : List Section)
        → All (λ (q : Section). All (λ (e : Text × Text). e.0 ≢ q.path) result) rs
        → All (λ (q : Section). s.path ≢ q.path) rs
        → All (λ (q : Section). All (λ (e : Text × Text). e.0 ≢ q.path) (result ++ entry s ∷ [])) rs
    both [] x y = tt
    both (q ∷ rs) x y = (All-append _ result (entry s ∷ []) x.0 (y.0, tt), both rs x.1 y.1)

    list_assoc :
        (xs : List (Text × Text)) (y : Text × Text) (ys : List (Text × Text))
        → (xs ++ y ∷ []) ++ ys ≡ xs ++ (y ∷ ys)
    list_assoc [] y ys = refl
    list_assoc (x ∷ xs) y ys = ap (◌∷◌ x) (list_assoc xs y ys)

-- A patch of a commit is put together of the patches of its paths. When each starts with a header of
-- one line that names its path, ends its last line, and has no other line that starts like a header,
-- and when no path has two, then taking it apart gives every path its own patch, in their order.
pub path_patches-print_all :
    (ss : List Section)
    → All IsReadable ss
    → AreApart ss
    → path_patches (print_all ss) ≡ map entry ss
unfolding path_patches close collect split_lines
path_patches-print_all [] v d = refl
path_patches-print_all (s ∷ ss) v d =
    collect_section none [] [] s (print_all ss) v.0
    ∙ collect_all s ss [] v.1 d.0 d.1 tt (none_yet ss)
  where
    none_yet :
        (rs : List Section) → All (λ (q : Section). All (λ (e : Text × Text). e.0 ≢ q.path) []) rs
    none_yet [] = tt
    none_yet (q ∷ rs) = (tt, none_yet rs)

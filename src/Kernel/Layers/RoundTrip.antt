-- ===== src/Kernel/Layers/RoundTrip.antt =====
-- Virtual against physical paths, and layers against audiences.
use stigmergy.Prelude.{
  ◌≡◌, refl, sym, ap, subst, true, false, ◌&&◌, not, ◌↔◌, inl, inr, Option, none, some, List, [],
  ◌∷◌, ◌++◌, arith, ◌==◌, ==_iff, ==_refl, all, Text, text_eq, text_eq_iff, after_prefix, is_empty,
  Bool-cases, Option-cases, &&-elim,
}
use stigmergy.Kernel.Layers.{
  Result, ok, public, layers_folder, is_name_char, matches_name, is_layer_name, layer_of_acl,
  acl_of_layer, physical_path, at_slash, checked_parts, split_path,
}

after_prefix-append : (p s : Text) → after_prefix p (p ++ s) ≡ some s
unfolding after_prefix
after_prefix-append [] s = refl
after_prefix-append (c ∷ p) s = rw ==_refl (after_prefix-append p s)

append-after_prefix : (p s r : Text) → after_prefix p s ≡ some r → s ≡ p ++ r
unfolding after_prefix
append-after_prefix [] s r h = cc
append-after_prefix (c ∷ p) [] r h = absurd (cc h)
append-after_prefix (c ∷ p) (d ∷ s) r h = ground (arith, append-after_prefix p s r)

-- no slash in it
abbrev pub NoSlash : Text → Type 0
NoSlash [] = Unit
NoSlash (c ∷ cs) = ((c == b'/') ≡ false) × NoSlash cs

at_slash-append : (a b : Text) → NoSlash a → at_slash (a ++ (b'/' ∷ b)) ≡ some (a, b)
unfolding at_slash
at_slash-append [] b h = refl
at_slash-append (c ∷ a) b h = rw (h.0, at_slash-append a b h.1)

append-at_slash : (s a b : Text) → at_slash s ≡ some (a, b) → s ≡ a ++ (b'/' ∷ b)
unfolding at_slash
append-at_slash [] a b h = absurd (cc h)
append-at_slash (c ∷ cs) a b h = elim (Bool-cases (c == b'/')) [
  | inl e ↦
      let same : ◌≡◌ {A = Option (Text × Text)} (some ([], cs)) (some (a, b)) =
        rw (e, at_slash) at h in
      ground (arith, same, (==_iff c b'/').0 e)
  | inr e ↦ elim (Option-cases (at_slash cs)) [
    | inl q ↦
        let same : ◌≡◌ {A = Option (Text × Text)} none (some (a, b)) = rw (e, q, at_slash) at h in
        absurd (cc same)
    | inr ((x, y), q) ↦
        let same : ◌≡◌ {A = Option (Text × Text)} (some (c ∷ x, y)) (some (a, b)) =
          rw (e, q, at_slash) at h in
        let front : c ∷ x ≡ a = cc same in
        let back : y ≡ b = cc same in rw (← front, ← back) (ap (◌∷◌ c) (append-at_slash cs x y q))
  ]
]

name-NoSlash : (cs : Text) → all is_name_char cs ≡ true → NoSlash cs
name-NoSlash [] h = tt
name-NoSlash (c ∷ cs) h =
    let (first, rest) = &&-elim (is_name_char c) (all is_name_char cs) h in
    (ground (arith, first), name-NoSlash cs rest)

layer-NoSlash : (l : Text) → is_layer_name l ≡ true → NoSlash l
unfolding is_layer_name matches_name
layer-NoSlash [] h = tt
layer-NoSlash (c ∷ cs) h = ground (arith, name-NoSlash cs)

-- A path of a layer splits into that layer and the virtual path, which is not empty: for every
-- layer name, and for the public layer where the virtual path does not itself begin with the
-- layers' folder.
pub split-physical_path :
    (layer virtual path : Text)
    → physical_path layer virtual ≡ ok path
    → is_empty virtual ≡ false
    → (text_eq layer public ≡ true → after_prefix layers_folder virtual ≡ none)
    → split_path path ≡ ok (layer, virtual)
unfolding physical_path split_path
split-physical_path layer virtual path h some_path outside =
    elim (Bool-cases (text_eq layer public)) [
      | inl e ↦
          let same : virtual ≡ path = cc (rw (e, physical_path) at h) in
          let home : layer ≡ public = (text_eq_iff layer public).0 e in
          subst (λ z. split_path z ≡ ok (layer, virtual)) same
            (rw (split_path, outside e) (ap (λ l. ok (l, virtual)) (sym home)))
      | inr e ↦ elim (Bool-cases (is_layer_name layer)) [
        | inr n ↦ absurd (cc (rw (e, n, physical_path) at h))
        | inl n ↦
            let same : layers_folder ++ (layer ++ (b'/' ∷ virtual)) ≡ path =
              cc (rw (e, n, physical_path) at h) in
            rw (
              ← same,
              split_path,
              after_prefix-append layers_folder (layer ++ (b'/' ∷ virtual)),
              at_slash-append layer virtual (layer-NoSlash layer n),
              n,
              some_path,
            )
      ]
    ]

public_path : (path : Text) → physical_path public path ≡ ok path
unfolding physical_path text_eq
public_path path = refl

public_is_reserved : is_layer_name public ≡ false
unfolding is_layer_name matches_name text_eq
public_is_reserved = refl

layer_path :
    (layer virtual : Text)
    → is_layer_name layer ≡ true
    → physical_path layer virtual ≡ ok (layers_folder ++ (layer ++ (b'/' ∷ virtual)))
unfolding physical_path
layer_path layer virtual n = elim (Bool-cases (text_eq layer public)) [
  | inl e ↦ absurd (cc (n, public_is_reserved, ap is_layer_name ((text_eq_iff layer public).0 e)))
  | inr e ↦ rw (e, physical_path) (rw n)
]

checked_parts-ok :
    (o : Option (Text × Text)) (layer virtual : Text)
    → checked_parts o ≡ ok (layer, virtual)
    → (o ≡ some (layer, virtual)) × (is_layer_name layer ≡ true)
checked_parts-ok none layer virtual h = absurd (cc h)
checked_parts-ok (some (a, b)) layer virtual h =
    elim (Bool-cases (is_layer_name a && not (is_empty b))) [
      | inr e ↦ absurd (cc (rw e at h))
      | inl e ↦
          let same : ◌≡◌ {A = Result (Text × Text)} (ok (a, b)) (ok (layer, virtual)) = rw e at h in
          let front : a ≡ layer = cc same in
          let back : b ≡ virtual = cc same in
          (
            rw (front, back),
            subst (λ z. is_layer_name z ≡ true) front
                (&&-elim (is_layer_name a) (not (is_empty b)) e).0,
          )
    ]

-- Every path that splits is the physical path of its layer and virtual path.
pub physical-split_path :
    (path layer virtual : Text)
    → split_path path ≡ ok (layer, virtual)
    → physical_path layer virtual ≡ ok path
unfolding physical_path split_path
physical-split_path path layer virtual h = elim (Option-cases (after_prefix layers_folder path)) [
  | inl e ↦
      let same : ◌≡◌ {A = Result (Text × Text)} (ok (public, path)) (ok (layer, virtual)) =
        rw (e, split_path) at h in
      let home : public ≡ layer = cc same in
      let kept : path ≡ virtual = cc same in rw (← home, ← kept) (public_path path)
  | inr (rest, e) ↦
      let parts : checked_parts (at_slash rest) ≡ ok (layer, virtual) = rw (e, split_path) at h in
      let (split, named) = checked_parts-ok (at_slash rest) layer virtual parts in
      rw (append-after_prefix layers_folder path rest e, append-at_slash rest layer virtual split)
        (layer_path layer virtual named)
]

not_public : (l : Text) → is_layer_name l ≡ true → text_eq l public ≡ false
not_public l n = elim (Bool-cases (text_eq l public)) [
  | inl e ↦ absurd (cc (n, public_is_reserved, ap is_layer_name ((text_eq_iff l public).0 e)))
  | inr e ↦ e
]

layer-acl : (l : Text) (a : Option (List Text)) → acl_of_layer l ≡ ok a → layer_of_acl a ≡ ok l
unfolding acl_of_layer layer_of_acl
layer-acl l a h = elim (Bool-cases (text_eq l public)) [
  | inl e ↦
      let same : ◌≡◌ {A = Result (Option (List Text))} (ok none) (ok a) =
        rw (e, acl_of_layer) at h in
      let none_a : none ≡ a = cc same in
      rw (← none_a, layer_of_acl) (ap ok (sym ((text_eq_iff l public).0 e)))
  | inr e ↦ elim (Bool-cases (is_layer_name l)) [
    | inl n ↦
        let same : ◌≡◌ {A = Result (Option (List Text))} (ok (some (l ∷ []))) (ok a) =
          rw (e, n, acl_of_layer) at h in
        let one_a : some (l ∷ []) ≡ a = cc same in rw (← one_a, layer_of_acl, n)
    | inr n ↦ absurd (cc (rw (e, n, acl_of_layer) at h))
  ]
]

named-acl : (x l : Text) → layer_of_acl (some (x ∷ [])) ≡ ok l → (x ≡ l) × (is_layer_name x ≡ true)
unfolding layer_of_acl
named-acl x l h = elim (Bool-cases (is_layer_name x)) [
  | inl n ↦
      let same : ◌≡◌ {A = Result Text} (ok x) (ok l) = rw (n, layer_of_acl) at h in (cc same, n)
  | inr n ↦ absurd (cc (rw (n, layer_of_acl) at h))
]

acl-layer : (l : Text) (a : Option (List Text)) → layer_of_acl a ≡ ok l → acl_of_layer l ≡ ok a
unfolding acl_of_layer layer_of_acl
acl-layer l none h =
    let same : public ≡ l = cc h in rw (← same, acl_of_layer, (text_eq_iff public public).1 refl)
acl-layer l (some []) h = absurd (cc h)
acl-layer l (some (x ∷ [])) h =
    let (same, n) = named-acl x l h in rw (← same, acl_of_layer, not_public x n, n)
acl-layer l (some (x ∷ y ∷ r)) h = absurd (cc h)

-- A layer and its audience name each other: what `acl_of_layer` gives for a layer denotes that layer,
-- and every audience that denotes a layer is the one given for it.
pub layer_acl :
    (layer : Text) (acl : Option (List Text))
    → (acl_of_layer layer ≡ ok acl) ↔ (layer_of_acl acl ≡ ok layer)
layer_acl layer acl = (layer-acl layer acl, acl-layer layer acl)

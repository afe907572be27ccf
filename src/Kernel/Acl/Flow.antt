-- ===== src/Kernel/Acl/Flow.antt =====
-- Containment of audiences on writes against visibility on reads.
use stigmergy.Prelude.{
  ◌≡◌, refl, sym, ap, ◌∙◌, subst, true, false, not, inl, inr, Option, none, some, List, [], ◌∷◌,
  map, arith, is_some, is_empty, all, all-In, all_fails, keep-In, In-keep, In, In-map, map-In,
  any-In, In-any, All, All-In, Text, strip, elem, elem-In, In-elem, Bool-cases,
}
use stigmergy.Kernel.Acl.{labels, only, stripped, text_of, meets, visible, flows_into, stored}

labels-stored : (acl : List Text) → labels (stored (some acl)) ≡ only (stripped acl)
unfolding labels stored
labels-stored acl = rw (all_some acl, texts acl)
  where
    all_some : (xs : List Text) → all is_some (map some xs) ≡ true
    all_some [] = refl
    all_some (x ∷ xs) = all_some xs

    texts : (xs : List Text) → map text_of (map some xs) ≡ xs
    texts [] = refl
    texts (x ∷ xs) = ap (◌∷◌ x) (texts xs)

-- A label that storage would not change.
pub record IsLabel (a : Text) : Type 0 where
  pub trimmed : strip a ≡ a
  pub some_text : is_empty a ≡ false

In-stripped :
    (s : Text) (acl : List Text) → In s (stripped acl) → (a : Text) × In a acl × (s ≡ strip a)
unfolding stripped
In-stripped s acl m = In-map strip s acl (In-keep (λ t. not (is_empty t)) s (map strip acl) m).0

stripped-In : (a : Text) (acl : List Text) → IsLabel a → In a acl → In a (stripped acl)
unfolding stripped
stripped-In a acl l m =
    keep-In (λ t. not (is_empty t)) a (map strip acl)
      (subst (λ z. In z (map strip acl)) l.trimmed (map-In strip a acl m)) (rw l.some_text)

stripped_mono :
    (content page : List Text)
    → all (λ a. elem a content) page ≡ true
    → (s : Text) → In s (stripped page)
    → In s (stripped content)
unfolding stripped
stripped_mono content page h s m =
    let (n, long) = In-keep (λ t. not (is_empty t)) s (map strip page) m in
    let (a, inside, e) = In-map strip s page n in
    keep-In (λ t. not (is_empty t)) s (map strip content)
      (subst (λ z. In z (map strip content)) (sym e)
        (map-In strip a content (elem-In a content (all-In (λ z. elem z content) a page h inside))))
      long

meets_mono :
    (own more : List Text) (audiences : Option (List Text))
    → ((s : Text) → In s own → In s more)
    → meets own audiences ≡ true
    → meets more audiences ≡ true
meets_mono own more none sub h = refl
meets_mono own more (some audiences) sub h =
    let (s, m, e) = any-In (λ s. elem s audiences) own h in
    In-any (λ t. elem t audiences) s more (sub s m) e

-- Content that may flow into a page is visible to every client that sees the page.
pub flows_into_sound :
    (content page : Option (List Text)) (audiences : Option (List Text))
    → flows_into content page ≡ true
    → visible (stored page) audiences ≡ true
    → visible (stored content) audiences ≡ true
unfolding flows_into visible
flows_into_sound none page audiences f h = unfold stored labels in refl
flows_into_sound (some content) none audiences f h = absurd (ground arith)
flows_into_sound (some content) (some page) audiences f h = rw (labels-stored content) (
    meets_mono (stripped page) (stripped content) audiences (stripped_mono content page f)
      (rw (labels-stored page) at h))

unseen : (own : List Text) → meets own (some []) ≡ false
unseen [] = refl
unseen (x ∷ xs) = unseen xs

-- Content that may not flow into a page stays hidden from some client that sees the page, where the
-- labels of both are trimmed and not empty.
pub flows_into_exact :
    (content page : Option (List Text))
    → ((acl : List Text) → content ≡ some acl → All IsLabel acl)
    → ((acl : List Text) → page ≡ some acl → All IsLabel acl)
    → flows_into content page ≡ false
    → (audiences : Option (List Text)) × (visible (stored page) audiences ≡ true)
      × (visible (stored content) audiences ≡ false)
unfolding flows_into visible
flows_into_exact none page c p f = absurd (ground arith)
flows_into_exact (some content) none c p f =
    (some [], unfold stored labels in refl, rw (labels-stored content) (unseen (stripped content)))
flows_into_exact (some content) (some page) c p f =
    let (a, m, out) = all_fails (λ z. elem z content) page f in
    let own = All-In IsLabel a page (p page refl) m in
    (
      some (a ∷ []),
      rw (labels-stored page) (
          In-any (λ s. elem s (a ∷ [])) a (stripped page) (stripped-In a page own m)
            (In-elem a (a ∷ []) (inl refl))),
      rw (labels-stored content) (hidden a out),
    )
  where
    hidden : (a : Text) → elem a content ≡ false → meets (stripped content) (some (a ∷ [])) ≡ false
    hidden a out = elim (Bool-cases (meets (stripped content) (some (a ∷ [])))) [
      | inl h ↦
          let (s, m, e) = any-In (λ t. elem t (a ∷ [])) (stripped content) h in
          let (x, n, q) = In-stripped s content m in
          let same : s ≡ a = elim (elem-In s (a ∷ []) e) [ inl k ↦ k | inr k ↦ absurd k ] in
          let kept = (All-In IsLabel x content (c content refl) n).trimmed in
          absurd
            (cc (In-elem a content (subst (λ z. In z content) (sym kept ∙ sym q ∙ same) n), out))
      | inr h ↦ h
    ]

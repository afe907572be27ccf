-- ===== src/Index/Fragments/Pieces.antt =====
-- The pieces of a stored page (`pieces_of` of src/stigmergy/index/fragments.py) and their size.
use stigmergy.Prelude.{
  ◌≤◌, ◌≡◌, refl, Bool, false, ◌&&◌, not, ◌⊎◌, inl, inr, [], ◌∷◌, All, Bool-cases, is_empty, subst,
  sym, if◌then◌else◌,
}
use stigmergy.Index.Fragments.Lines.{byte_size, max_fragment_bytes}
use stigmergy.Index.Fragments.Cut.{
  Fragment, PageRow, PageType, entity, source, other, whole, is_source, is_entity, pieces_of,
  fragment,
}
use stigmergy.Index.Fragments.Bytes.{fragment_bytes}

PageType-cases : (t : PageType) → (t ≡ entity) ⊎ (is_entity t ≡ false)
PageType-cases entity = inl refl
PageType-cases source = inr refl
PageType-cases other = inr refl

-- No piece of a stored page has more than 4000 bytes in UTF-8, whatever lines and words the page has,
-- except the single piece of an entity page that is not to be cut, which is the page's whole body.
pub pieces_of-bounded :
    (row : PageRow) (cut : Bool)
    → All (λ (f : Fragment). byte_size f.text ≤ max_fragment_bytes) (pieces_of row cut)
      ⊎ ((row.type ≡ entity) × (cut ≡ false) × (pieces_of row cut ≡ whole row.body ∷ []))
unfolding pieces_of
pieces_of-bounded row cut = elim (Bool-cases (is_empty row.body)) [
  | inl e ↦ inl (rw (e, pieces_of) tt)
  | inr e ↦ elim (PageType-cases row.type) [
    | inr t ↦ inl (cut_up e (rw t refl))
    | inl t ↦ elim (Bool-cases cut) [
      | inl b ↦ inl (cut_up e (rw (t, b) refl))
      | inr b ↦ inr (t, b, rw (e, t, b, pieces_of) refl)
    ]
  ]
]
  where
    cut_up :
        is_empty row.body ≡ false
        → (is_entity row.type && not cut) ≡ false
        → All (λ (f : Fragment). byte_size f.text ≤ max_fragment_bytes) (pieces_of row cut)
    cut_up e k =
        let pieces = fragment row.body (is_source row.type) in
        let same : pieces_of row cut ≡ pieces =
          λ i. if e i then [] else if k i then whole row.body ∷ [] else pieces in
        subst (All (λ (f : Fragment). byte_size f.text ≤ max_fragment_bytes)) (sym same)
          (fragment_bytes row.body (is_source row.type))

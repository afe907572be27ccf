-- ===== src/Tests/Kernel.antt =====
-- The modules of src/stigmergy/kernel on small layers and audiences.
use stigmergy.Prelude.{
  ◌≡◌, refl, Bool, true, false, Option, none, some, List, [], ◌∷◌, Text, codes, All, subst, strip,
  text_eq,
}
use stigmergy.Kernel.Tenancy.{Session, visible}
use stigmergy.Kernel.Acl as Acl
use stigmergy.Kernel.Acl.{flows_into, stored, labels, stripped}
use stigmergy.Kernel.Acl.Flow.{IsLabel, flows_into_sound}
use stigmergy.Kernel.Layers.{ok, public, is_layer_name, matches_name, physical_path, split_path}
use stigmergy.Kernel.Layers.RoundTrip.{split-physical_path}

abbrev everyone : Session
everyone = record { tenant = none; platform = true }

abbrev reads : Session → Bool × Session
reads s = (visible s 3, s)

abbrev finance : Text
finance = codes "finance"

abbrev legal : Text
legal = codes "legal"

abbrev both : Option (List Text)
both = some (finance ∷ legal ∷ [])

abbrev narrow : Option (List Text)
narrow = some (finance ∷ [])

flows_into_sound_example : Acl.visible (stored both) narrow ≡ true
flows_into_sound_example =
    flows_into_sound both narrow narrow (unfold flows_into text_eq in refl)
      (unfold Acl.visible strip text_eq stored labels stripped in refl)

finance-IsLabel : IsLabel finance
finance-IsLabel = record { trimmed = unfold strip in refl; some_text = refl }

narrow_labels : (acl : List Text) → narrow ≡ some acl → All IsLabel acl
narrow_labels acl h = subst (All IsLabel) {x = finance ∷ []} {y = acl} (cc h) (finance-IsLabel, tt)

abbrev page : Text
page = codes "wiki/a.md"

abbrev filed : Text
filed = codes "layers/finance/wiki/a.md"

finance_restricted : text_eq finance public ≡ false
unfolding text_eq
finance_restricted = refl

split-physical_path_example : split_path filed ≡ ok (finance, page)
split-physical_path_example =
    split-physical_path finance page filed
      (unfold text_eq physical_path is_layer_name matches_name in refl) refl
      (λ h. absurd (cc (h, finance_restricted)))

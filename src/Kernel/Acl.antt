-- ===== src/Kernel/Acl.antt =====
-- src/stigmergy/kernel/acl.py and src/stigmergy/server/acl.py: who may see what, and which content
-- may flow into which page.
pub mod Flow
use stigmergy.Prelude.{
  ℕ, ◌≡◌, refl, sym, ap, ◌∙◌, Bool, true, false, ◌&&◌, not, ◌↔◌, Option, none, some, List, [], ◌∷◌,
  map, arith, is_some, is_empty, if◌then◌else◌, any, all, keep, Text, strip, split_at, elem,
}

-- a stored `acl`: None, a list (its entries are texts, or `none` for any other value), a text, or
-- any other value
pub data StoredAcl : Type 0 where
  unlabelled malformed : StoredAcl
  listed : List (Option Text) → StoredAcl
  joined : Text → StoredAcl

-- `_OPEN`, `_MALFORMED` or a set of labels
pub data Labels : Type 0 where
  open_to_all unreadable : Labels
  only : List Text → Labels

abbrev text_of : Option Text → Text
text_of none = []
text_of (some t) = t

-- {s for s in (p.strip() for p in parts) if s}
unfoldable pub stripped : List Text → List Text
stripped parts = keep (λ s. not (is_empty s)) (map strip parts)

unfoldable pub labels : StoredAcl → Labels
unfolding stripped
labels unlabelled = open_to_all
labels malformed = unreadable
labels (listed acl) = if all is_some acl then only (stripped (map text_of acl)) else unreadable
labels (joined acl) = only (stripped (split_at 44 acl))

abbrev meets : List Text → Option (List Text) → Bool
meets own none = true
meets own (some audiences) = any (λ s. elem s audiences) own

abbrev visible_to : Labels → Option (List Text) → Bool
visible_to unreadable audiences = false
visible_to open_to_all audiences = true
visible_to (only own) audiences = meets own audiences

-- `audiences` is None for an unrestricted client.
unfoldable pub visible : StoredAcl → Option (List Text) → Bool
unfolding labels
visible acl audiences = visible_to (labels acl) audiences

unfoldable pub flows_into : Option (List Text) → Option (List Text) → Bool
flows_into none page = true
flows_into (some content) none = false
flows_into (some content) (some page) = all (λ a. elem a content) page

-- how a valid page's acl is stored
unfoldable pub stored : Option (List Text) → StoredAcl
stored none = unlabelled
stored (some acl) = listed (map some acl)

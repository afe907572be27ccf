-- ===== src/Index/Fragments/Cut.antt =====
-- src/stigmergy/index/fragments.py: `fragment`, `embed_text`, `pieces_of` and `page_fragments`.
use stigmergy.Prelude.{
  ℕ, suc, String, Bool, true, false, ◌&&◌, not, Option, List, [], ◌∷◌, ◌++◌, map, leb, any, str_eq,
  if◌then◌else◌, length, take, Text, codes, is_empty,
}
use stigmergy.Index.Fragments.Lines.{Line, byte_size, lines_of, max_fragment_bytes}
use stigmergy.Index.Fragments.Sections.{Section, slice, sections, merged}
use stigmergy.Index.Fragments.Windows.{Span, sum_words, windows}

abbrev pub short_page_words : ℕ
short_page_words = 400

abbrev pub title_chars : ℕ
title_chars = 200

pub record Fragment : Type 0 where
  pub ordinal : ℕ
  pub start : ℕ
  pub end : ℕ
  pub trail : Text
  pub text : Text

pub record Placed : Type 0 where
  pub span : Span
  pub trail : Text

abbrev pub placed : Text → List Span → List Placed
placed trail [] = []
placed trail (s ∷ rest) = record { span = s; trail = trail } ∷ placed trail rest

-- the windows of all sections, each with its section's trail
abbrev pub place_all : List Line → List Section → List Placed
place_all lines [] = []
place_all lines (s ∷ rest) =
    placed s.trail (windows (slice s.first s.last lines)) ++ place_all lines rest

abbrev pub number_from : ℕ → Text → List Placed → List Fragment
number_from index body [] = []
number_from index body (p ∷ rest) =
    record {
      ordinal = index;
      start = p.span.start;
      end = p.span.end;
      trail = p.trail;
      text = slice p.span.start p.span.end body;
    }
    ∷ number_from (suc index) body rest

abbrev pub whole : Text → Fragment
whole body = record { ordinal = 0; start = 0; end = length body; trail = []; text = body }

unfoldable pub fragment : Text → Bool → List Fragment
unfolding lines_of byte_size sections merged windows
fragment body source =
    if is_empty body
    then []
    else (let lines = lines_of body in
        if leb (sum_words lines) short_page_words && leb (byte_size body) max_fragment_bytes
        then whole body ∷ []
        else number_from 0 body (place_all lines (merged (sections body lines source) lines)))

-- the text that a fragment is embedded as
unfoldable pub embed_text : Text → Fragment → Text
embed_text title f =
    let head = take title_chars title in
    (if is_empty f.trail then head else head ++ (codes " › " ++ f.trail)) ++ (codes "\n" ++ f.text)

pub data PageType : Type 0 where
  entity source other : PageType

pub record PageRow : Type 0 where
  pub path : String
  pub vpath : String
  pub title : Text
  pub acl : Option (List String)
  pub type : PageType
  pub body : Text

abbrev pub is_source : PageType → Bool
is_source source = true
is_source _ = false

abbrev pub is_entity : PageType → Bool
is_entity entity = true
is_entity _ = false

unfoldable pub pieces_of : PageRow → Bool → List Fragment
unfolding fragment
pieces_of row cut =
    if is_empty row.body
    then []
    else if is_entity row.type && not cut
    then whole row.body ∷ []
    else fragment row.body (is_source row.type)

pub record FragmentRow : Type 0 where
  pub path : String
  pub vpath : String
  pub ordinal : ℕ
  pub acl : Option (List String)
  pub type : PageType
  pub trail : Text
  pub text : Text
  pub embedded : Text
  pub content_hash : Text

-- `sha256` is the hexadecimal digest of a text's UTF-8 bytes.
module _ (sha256 : Text → Text) where
  abbrev pub row_of : PageRow → Fragment → FragmentRow
  row_of row piece =
      let text = embed_text row.title piece in
      record {
        path = row.path;
        vpath = row.vpath;
        ordinal = piece.ordinal;
        acl = row.acl;
        type = row.type;
        trail = piece.trail;
        text = piece.text;
        embedded = text;
        content_hash = codes "sha256:" ++ sha256 text;
      }

  -- `cut` holds the paths of the entity pages that the embedding model refused whole.
  unfoldable pub page_fragments : List PageRow → List String → List FragmentRow
  unfolding pieces_of embed_text
  page_fragments [] cut = []
  page_fragments (row ∷ rest) cut =
      map (row_of row) (pieces_of row (any (λ p. str_eq p row.path) cut)) ++ page_fragments rest cut

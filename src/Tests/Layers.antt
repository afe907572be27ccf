-- ===== src/Tests/Layers.antt =====
-- A layer's page on the same subject as a public one (src/stigmergy/kernel/layers.py).
use stigmergy.Prelude.{some, List, [], ◌∷◌, Text, codes}
use stigmergy.Kernel.Layers.Body.{Block, unit_item, Part, Body}

abbrev plainly : Text → Text
plainly t = t

abbrev fact : Block
fact = record { kind = unit_item; text = codes "- Net thirty days"; layer = "public" }

abbrev secret : Block
secret = record { kind = unit_item; text = codes "- Net sixty days for Acme"; layer = "sales" }

abbrev facts : Block → Part
facts u = record { heading = some (codes "## Facts"); units = u ∷ [] }

abbrev pages : List Body
pages =
    record { title_line = codes "# Terms"; parts = facts fact ∷ [] }
    ∷ record { title_line = codes "# Terms"; parts = facts secret ∷ [] }
    ∷ []

-- ===== src/Tests/Identity.antt =====
-- Where Bob of the roster files (src/stigmergy/server/identity.py).
use stigmergy.Prelude.{◌≡◌, ◌≢◌, refl, Option, List, Text, inl, inr}
use stigmergy.Server.Roster.{as_principal}
use stigmergy.Server.Identity.{Requested, omitted, filed, bad_layer, resolve_capture_layer}
use stigmergy.Server.Identity.Filing.{IsOwn, resolve_capture_layer-IsOwn}
use stigmergy.Tests.Roster.{acme, bob_row, acme-IsOrderly}

resolve_capture_layer-IsOwn_example :
    ((acl : Option (List Text)) × (resolve_capture_layer (as_principal bob_row) omitted
        ≡ filed acl))
    × ((q : Requested)
        → ((acl : Option (List Text))
            → resolve_capture_layer (as_principal bob_row) q ≡ filed acl
            → IsOwn acme bob_row acl)
          × (resolve_capture_layer (as_principal bob_row) q ≢ bad_layer))
resolve_capture_layer-IsOwn_example =
    resolve_capture_layer-IsOwn acme bob_row acme-IsOrderly (inr (inl refl))

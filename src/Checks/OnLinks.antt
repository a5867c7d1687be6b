-- ===== src/Checks/OnLinks.antt =====
-- An example for the list links of clients.
use espasync_tcp.Common.{refl, none, some, [], ◌∷◌, arith, if◌then◌else◌, ◌==◌}
use espasync_tcp.Client.Links.{Store, Extended, append_client, append_client-Extended}

-- The list 10, 20, 30 and the list 40, 50.
abbrev links : Store
links x =
    if x == 10
    then record { prev = none; next = some 20 }
    else if x == 20
    then record { prev = some 10; next = some 30 }
    else if x == 30
    then record { prev = some 20; next = none }
    else if x == 40
    then record { prev = none; next = some 50 }
    else if x == 50
    then record { prev = some 40; next = none }
    else record { prev = none; next = none }

append_client-Extended_example :
    Extended 40 (50 ∷ []) links 10 (20 ∷ 30 ∷ []) (append_client 2 10 40 links)
append_client-Extended_example =
    append_client-Extended 40 (50 ∷ []) links 2 10 (20 ∷ 30 ∷ []) (refl, refl, (refl, refl, refl))
      (refl, refl, refl) (refl, (refl, (refl, (refl, (refl, tt))))) (omega arith)

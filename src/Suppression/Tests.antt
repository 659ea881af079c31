-- ===== src/Suppression/Tests.antt =====
-- A suppression that is purged, and the theorem at it.
use cronwatch.Prelude.{◌≡◌, refl, true, none, some, List, [], ◌∷◌}
use cronwatch.Dict.{get, set_item, pop}
use cronwatch.Suppression.{is_suppressed, is_active, is_expired, suppress, release, purge_expired}
use cronwatch.Suppression.Expiry.{Call, suppressed, released, purged, perform, run}

-- The latest call comes first.
abbrev calls : List Call
calls =
    purged 8
    ∷ suppressed "sync" "move" (some 10) 5
    ∷ released "load"
    ∷ suppressed "load" "noise" none 4
    ∷ []

still_suppressed : is_suppressed (run calls) "sync" 9 ≡ true
unfolding is_suppressed run perform suppress release purge_expired is_active is_expired get set_item
    pop
still_suppressed = refl

one_purged : (purge_expired (run calls) 10).1 ≡ 1
unfolding run perform suppress release purge_expired is_active is_expired get set_item pop
one_purged = refl

-- ===== src/Store/Append/Published.antt =====
-- The catch-up ring in an append, with the compaction in it.
use relaybox.Prelude.{◌≡◌, ◌⊎◌, List, [], ◌∷◌, ◌++◌}
use relaybox.Store.Model.{Event}
use relaybox.Store.Errors.{Error, Result, err}
use relaybox.Store.Env.{Env}
use relaybox.Store.Options.{Options}
use relaybox.Store.State.{Store}
use relaybox.Store.Apply.Ring.{IsRing}

-- The ring holds the last of the events published so far, to which a success adds the event; a
-- compaction that fails after it, too, leaves the event in.
abbrev pub Publishes : Env → Options → List Event → Event → Result Event → Store → Type 0
Publishes env o published e r s' =
    ((x : Error) × (r ≡ err x) × IsRing env o published s'.image)
    ⊎ IsRing env o (published ++ e ∷ []) s'.image

-- ===== src/FdManager/Examples.antt =====
-- server/fd_manager.cc: the theorem on a table of three empty slots.
use zjh_server.Base.{[], ◌∷◌, none}
use zjh_server.FdManager.{Slots}

abbrev three_slots : Slots
three_slots = none ∷ none ∷ none ∷ []

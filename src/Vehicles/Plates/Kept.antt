-- ===== src/Vehicles/Plates/Kept.antt =====
-- Every endpoint of vehicles keeps the plate numbers unique.
use arkride_backend.World.{World}

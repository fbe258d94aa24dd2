-- ===== src/Api/Registrations/Refused.antt =====
-- What a refused request leaves of the tables.
use do_an_tot_nghiep.Base.{◌≡◌}
use do_an_tot_nghiep.Store.{Db}
use do_an_tot_nghiep.Shared.Counters.{Counters}
use do_an_tot_nghiep.Api.Registrations.{Server, Reply, refused, accepted}

-- A refusal comes with the tables as they were.
abbrev pub Keeps : {J : Type 0} → Db → Reply J × Server → Type 0
Keeps db (accepted js, sv) = Unit
Keeps db (refused e, sv) = sv.db ≡ db

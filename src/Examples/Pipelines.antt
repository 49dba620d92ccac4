-- ===== src/Examples/Pipelines.antt =====
-- A Bind from a client that forges its identity, on its way to the backend.
use pqproxy.Base.{◌<◌, ◌≡◌, refl, ap, inr, true, [], ◌∷◌, pos, negsuc, codes, arith}
use pqproxy.Pique.{Parse, Prepared, Fits}
use pqproxy.Pique.Wire.{Bind, text_param}
use pqproxy.StmtCache.{Cache, init, put}
use pqproxy.StmtCache.Invariant.{init-Inv}
use pqproxy.StmtCache.Put.{Stored, put-Stored}
use pqproxy.Identity.{Identity}
use pqproxy.Rewrite.{on_bind, on_parse_ex, bind_slot, parse_slot}
use pqproxy.Rewrite.Inject.{Injected, on_bind-Injected, on_bind_accepts}
use pqproxy.IdentitySlot.Columns.{list_text}
use pqproxy.IdentitySlot.Insert.{text_of}
use pqproxy.Examples.Slots.{insert_events}
use pqproxy.Examples.Library.{copying, copying-PrepareLaws, accepting, accepting-WireLaws}
use pqproxy.Examples.Statements.{st1, st1_stored, empty_room}

-- The statement `st1` is cached with slot 1.
abbrev cached : Cache
cached = (put copying init st1 (pos 1)).1

abbrev router : Identity
router = record {
  router_id = codes "router-9";
  group = codes "region_east";
  identity_slot = negsuc 0;
}

abbrev forged : Bind
forged = record {
  portal = [];
  statement = codes "st1";
  params = text_param (codes "hello") (pos 0) ∷ text_param (codes "forged-id") (pos 0) ∷ [];
  result_formats = [];
}

abbrev entry : Prepared
entry = st1_stored.entry

in_range : bind_slot router entry < 2
unfolding bind_slot
in_range = rw st1_stored.identity (omega arith)

accepts : (on_bind accepting [] cached forged router).0 ≡ true
accepts =
    on_bind_accepts accepting [] cached forged router entry (λ v c. refl) st1_stored.reads in_range

accepted :
    on_bind accepting [] cached forged router
    ≡ (true, (on_bind accepting [] cached forged router).1)
accepted = ap (λ b. (b, (on_bind accepting [] cached forged router).1)) accepts

on_bind_accepts_example : (on_bind accepting [] cached forged router).0 ≡ true
on_bind_accepts_example =
    on_bind_accepts accepting [] cached forged router entry (λ v c. refl) st1_stored.reads in_range

on_bind-Injected_example :
    Injected [] cached forged router (on_bind accepting [] cached forged router).1
on_bind-Injected_example =
    on_bind-Injected accepting-WireLaws [] (on_bind accepting [] cached forged router).1 cached
      forged router accepted

-- The statement `st1` is an INSERT whose second column is named.
abbrev insert_st1 : Parse
insert_st1 = record st1 { query = text_of insert_events }

insert_st1-Fits : Fits copying insert_st1
unfolding text_of list_text
insert_st1-Fits = record { name_fits = omega arith; query_fits = ground arith }

abbrev parsed : Cache
parsed = (on_parse_ex copying accepting [] init insert_st1 (negsuc 0) (codes "router_id")).1

abbrev insert_stored :
    Stored copying init insert_st1
      (parse_slot insert_st1 (negsuc 0) (codes "router_id"))
      (put copying init insert_st1 (parse_slot insert_st1 (negsuc 0) (codes "router_id")))
insert_stored =
    put-Stored copying-PrepareLaws (init-Inv copying) insert_st1
      (parse_slot insert_st1 (negsuc 0) (codes "router_id")) insert_st1-Fits (inr empty_room)

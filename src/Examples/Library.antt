-- ===== src/Examples/Library.antt =====
-- A concrete pique: buffers of 64 and 1024 bytes, a copy that accepts what fits, contexts that
-- accept all calls.
use pqproxy.Base.{refl, true, ◌&&◌, some, ltb, length, set, arith}
use pqproxy.Pique.{PrepareApi, PrepareLaws}
use pqproxy.Pique.Wire.{WireApi, WireLaws, text_param}

abbrev pub copying : PrepareApi
copying = record {
  stmt_cap = 64;
  query_cap = 1024;
  from_parse = λ p s. (
    ltb (length p.statement) 64 && ltb (length p.query) 1024,
    record {
      name = p.statement;
      query = p.query;
      n_param_types = p.n_param_types;
      param_type_oids = p.param_type_oids;
      identity_param_slot = s.identity_param_slot;
    },
  );
}

pub copying-PrepareLaws : PrepareLaws copying
copying-PrepareLaws = record {
  accepts = λ p s fit. ground (arith, fit.name_fits, fit.query_fits);
  copies =
      λ p s e. record { name = refl; query = refl; n_param_types = refl; param_type_oids = refl };
}

abbrev pub accepting : WireApi
accepting = record {
  answer = λ w c. true;
  inject = λ bind slot value format. some (set bind.params slot (text_param value format));
}

pub accepting-WireLaws : WireLaws accepting
accepting-WireLaws = record { injects = λ bind slot value format params e. ground (arith, e) }

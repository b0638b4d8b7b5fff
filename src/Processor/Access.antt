-- ===== src/Processor/Access.antt =====
-- api/routes/processor.py: the identity of the processor, by a bearer token. `str.lower` is a
-- parameter.
use Prim.Native.Char.{code}
use Prim.Native.String.{String, ◌∷◌ as cons}
use nanexus_event_intelligen.Prelude.{
  Bool, true, false, not, ◌&&◌, ◌||◌, Option, eqb, ◌==◌, string_eq, or_else, if◌then◌else◌,
}
use nanexus_event_intelligen.Core.{Result, ok, err, http_exception}

-- `text.partition(" ")`: the part before the first space, whether there is one, the part after it.
unfoldable pub partition : String → String × Bool × String
partition String.[] = ("", false, "")
partition (String.◌∷◌ c s) =
    let rest = partition s in
    if eqb (code c) 32 then ("", true, s) else (cons c rest.0, rest.1, rest.2)

module _ (lower : String → String) where
  unfoldable pub require_processor_identity : Option String → Option String → Result String
  require_processor_identity secret authorization =
      let expected = or_else secret "" in
      let parts = partition (or_else authorization "") in
      if expected == "" || not (parts.1 && lower parts.0 == "bearer") || not (parts.2 == expected)
      then err (http_exception 401 "processor identity denied")
      else ok "video-summary"

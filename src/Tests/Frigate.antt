-- ===== src/Tests/Frigate.antt =====
-- Runs of adapters/frigate/redaction.py.
use nanexus_event_intelligen.Prelude.{String}
use nanexus_event_intelligen.Core.Payload.{Json, text, obj, field, end}
use nanexus_event_intelligen.Frigate.Redaction.{redact}
use nanexus_event_intelligen.Frigate.Redaction.Clean.{IsClean, redact-IsClean}

abbrev recorded : Json
recorded = obj (
    field "camera" (text "rtsp://admin:pw@cam")
      (field "auth" (obj (field "password" (text "pw") end)) end))

abbrev same_text : String → String
same_text s = s

abbrev without_credentials : String → String
without_credentials s = "rtsp://[REDACTED]@cam"

redact-IsClean_example :
    IsClean same_text without_credentials (redact same_text without_credentials recorded)
redact-IsClean_example = redact-IsClean same_text without_credentials recorded

-- ===== src/Frigate/Redaction/Clean.antt =====
-- adapters/frigate/redaction.py: what is left of a payload.
use mathlib.Core.Path.{subst}
use nanexus_event_intelligen.Prelude.{
  String, some, ◌≡◌, refl, ◌⊎◌, inl, inr, Bool, true, false, if◌then◌else◌,
}
use nanexus_event_intelligen.Core.Payload.{
  Json, Items, Fields, null, bool, num, text, arr, obj, nil, item, end, field, as_dict,
}
use nanexus_event_intelligen.Frigate.Redaction.{
  redacted, is_sensitive, redact, redact_items, redact_fields,
}

module _ (lower substitute : String → String) where
  -- At any depth, the value of a sensitive key is the word REDACTED, and every other text has gone
  -- through the substitution.
  mutual
    pub IsClean : Json → Type 0
    IsClean null = Unit
    IsClean (bool b) = Unit
    IsClean (num n) = Unit
    IsClean (text s) = (t : String) × (s ≡ substitute t)
    IsClean (arr items) = AreClean items
    IsClean (obj fields) = HasCleanFields fields

    pub AreClean : Items → Type 0
    AreClean nil = Unit
    AreClean (item j items) = IsClean j × AreClean items

    pub HasCleanFields : Fields → Type 0
    HasCleanFields end = Unit
    HasCleanFields (field key j fields) =
        (((is_sensitive lower substitute key ≡ true) × (j ≡ text redacted))
          ⊎ ((is_sensitive lower substitute key ≡ false) × IsClean j))
        × HasCleanFields fields

  field-IsClean :
      (key : String) (j : Json) (b : Bool)
      → is_sensitive lower substitute key ≡ b
      → IsClean j
      → ((is_sensitive lower substitute key ≡ true)
          × ((if b then text redacted else j) ≡ text redacted))
        ⊎ ((is_sensitive lower substitute key ≡ false) × IsClean (if b then text redacted else j))
  field-IsClean key j true e c = inl (e, refl)
  field-IsClean key j false e c = inr (e, c)

  mutual
    unfolding redact IsClean

    IsClean-redact : (j : Json) → IsClean (redact lower substitute j)
    IsClean-redact null = tt
    IsClean-redact (bool b) = tt
    IsClean-redact (num n) = tt
    IsClean-redact (text s) = (s, refl)
    IsClean-redact (arr items) = redact_items-AreClean items
    IsClean-redact (obj fields) = redact_fields-HasCleanFields fields

    redact_items-AreClean : (items : Items) → AreClean (redact_items lower substitute items)
    redact_items-AreClean nil = tt
    redact_items-AreClean (item j items) = (IsClean-redact j, redact_items-AreClean items)

    redact_fields-HasCleanFields :
        (fields : Fields) → HasCleanFields (redact_fields lower substitute fields)
    redact_fields-HasCleanFields end = tt
    redact_fields-HasCleanFields (field key j fields) = (
      field-IsClean key (redact lower substitute j) _ refl (IsClean-redact j),
      redact_fields-HasCleanFields fields,
    )

  -- Redaction leaves no secret under a sensitive key: at any depth of the payload, the value of a
  -- key whose lower-case form is sensitive is the word REDACTED, and every other text is what the
  -- substitution of URL credentials gives for some text.
  pub redact-IsClean : (j : Json) → IsClean (redact lower substitute j)
  redact-IsClean j = IsClean-redact j

  -- A redacted object is an object with clean fields.
  pub redacted-HasCleanFields :
      (fields payload : Fields)
      → as_dict (some (redact lower substitute (obj fields))) ≡ some payload
      → HasCleanFields payload
  unfolding redact IsClean
  redacted-HasCleanFields fields payload h =
      let same : redact_fields lower substitute fields ≡ payload = cc in
      subst HasCleanFields same (redact_fields-HasCleanFields fields)

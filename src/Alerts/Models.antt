-- ===== src/Alerts/Models.antt =====
-- alerts/models.py. A `frozenset[str]` is the list of its elements, only ever tested for membership
-- and intersection; a `UUID` is its 128-bit value and a time the microseconds since the epoch.
use Prim.Native.Char.{Char, code}
use nanexus_event_intelligen.Prelude.{
  ℕ, String, Bool, true, false, ◌&&◌, ◌||◌, Option, List, eqb, leb,
}
use nanexus_event_intelligen.Core.{Uuid, Time}

pub data Outcome : Type 0 where
  send suppress escalate no_action : Outcome

pub record RuleMatch : Type 0 where
  pub event_kinds : List String
  pub lifecycles : List String
  pub labels_any : List String
  pub zones_any : List String
  pub require_all_objects_stationary : Option Bool
  pub exclude_labels : List String

pub record ShadowRule : Type 0 where
  pub rule_id : String
  pub priority : ℕ
  pub outcome : Outcome
  pub description : String
  pub match : RuleMatch

pub record ShadowPolicy : Type 0 where
  pub policy_id : String
  pub version : String
  pub rules : List ShadowRule

-- The field's type is `Literal["no_action"]`, so it has one value.
abbrev pub default_outcome : ShadowPolicy → Outcome
default_outcome policy = no_action

pub record AlertFact : Type 0 where
  pub observation_id : Uuid
  pub event_kind : String
  pub lifecycle : String
  pub occurred_at : Time
  pub labels : List String
  pub zones : List String
  pub object_stationary : List (Option Bool)

-- The dictionary `checks`, whose keys are fixed.
pub record Checks : Type 0 where
  pub event_kind : Bool
  pub lifecycle : Bool
  pub labels_any : Bool
  pub zones_any : Bool
  pub exclude_labels : Bool
  pub all_objects_stationary : Bool

pub record RuleTrace : Type 0 where
  pub rule_id : String
  pub priority : ℕ
  pub matched : Bool
  pub checks : Checks
  pub explanation : String

pub record ShadowEvaluation : Type 0 where
  pub outcome : Outcome
  pub policy_id : String
  pub policy_version : String
  pub matched_rule_id : Option String
  pub reasons : List String
  pub trace : List RuleTrace

abbrev is_lower : Char → Bool
is_lower c = leb b'a' (code c) && leb (code c) b'z'

abbrev is_rule_char : Char → Bool
is_rule_char c =
    is_lower c
    || (leb b'0' (code c) && leb (code c) b'9')
    || eqb (code c) b'.'
    || eqb (code c) b'_'
    || eqb (code c) b'-'

rest_of_rule_id : String → Bool
rest_of_rule_id String.[] = true
rest_of_rule_id (String.◌∷◌ c s) = is_rule_char c && rest_of_rule_id s

-- The pattern `^[a-z][a-z0-9._-]+$` of `ShadowRule.rule_id`.
unfoldable pub is_rule_id : String → Bool
unfolding rest_of_rule_id
is_rule_id String.[] = false
is_rule_id (String.◌∷◌ c String.[]) = false
is_rule_id (String.◌∷◌ c (String.◌∷◌ d s)) = is_lower c && is_rule_char d && rest_of_rule_id s
